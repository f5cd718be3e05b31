-- ===== src/Json/Members.antt =====
-- The fast reader goes past the members with other keys.
use linux.Base.{
  ◌+◌, ◌≤◌, ◌≡◌, refl, ap₂, ◌∙◌, ◌≢◌, Bool, true, false, ◌&&◌, some, [], ◌∷◌, ◌++◌, arith, Bytes,
  All, eqb, ltb, ◌==◌, length, get_or, take, length-append, is_empty,
}
use linux.Json.{scan_key, extract_json_string_fast, get}
use linux.Json.Extract.{IsPlain, scan_key_past, scan_key_here, after_name}

-- Between two quotes, only the key itself is taken for it.
same_name :
    (name key rest : Bytes)
    → IsPlain name
    → IsPlain key
    → eqb (take (length key) (name ++ b'"' ∷ rest)) key ≡ true
    → (get_or (name ++ b'"' ∷ rest) (length key) 0 == b'"') ≡ true
    → name ≡ key
unfolding eqb
same_name [] [] rest h k e q = refl
same_name [] (c ∷ key) rest h k e q = absurd (k.0.0 (ground (arith, e)))
same_name (x ∷ name) [] rest h k e q = absurd (h.0.0 (ground (arith, q)))
same_name (x ∷ name) (c ∷ key) rest h k e q =
    let same : x ≡ c = ground (arith, e) in
    let more : eqb (take (length key) (name ++ b'"' ∷ rest)) key ≡ true = ground (arith, e) in
    ap₂ ◌∷◌ same (same_name name key rest h.1 k.1 more q)

not_both : (a b : Bool) → (a ≡ true → b ≢ true) → (a && b) ≡ false
not_both false b h = refl
not_both true false h = refl
not_both true true h = absurd (h refl refl)

pub no_quotes : (v : Bytes) → IsPlain v → All (λ c. c ≢ b'"') v
no_quotes [] h = tt
no_quotes (c ∷ v) (h, hs) = (h.0, no_quotes v hs)

-- From one quote to the next, when what is between them is not the key.
quote_past :
    (key name rest : Bytes)
    → IsPlain key
    → IsPlain name
    → name ≢ key
    → length key + 1 ≤ length rest
    → scan_key key (b'"' ∷ (name ++ b'"' ∷ rest)) ≡ scan_key key (b'"' ∷ rest)
unfolding scan_key
quote_past key name rest k n ne le =
    let long : ltb (length (b'"' ∷ (name ++ b'"' ∷ rest))) (length key + 2) ≡ false =
      ground (arith, length-append name (b'"' ∷ rest)) in
    let other : (eqb (take (length key) (name ++ b'"' ∷ rest)) key
          && get_or (name ++ b'"' ∷ rest) (length key) 0 == b'"')
        ≡ false =
      not_both (eqb (take (length key) (name ++ b'"' ∷ rest)) key)
        (get_or (name ++ b'"' ∷ rest) (length key) 0 == b'"')
        (λ e q. ne (same_name name key rest n k e q)) in
    rw (long, other) (scan_key_past key name (b'"' ∷ rest) (no_quotes name n) (omega arith))

-- A member of another key, and the comma behind it.
abbrev pub member_before : Bytes → Bytes → Bytes → Bytes
member_before k v rest = b'"' ∷ (k ++ after_name v (b',' ∷ b'"' ∷ rest))

scan_key-member :
    (key k v rest : Bytes)
    → IsPlain key
    → All (λ name. IsPlain name × (name ≢ key)) (k ∷ v ∷ (b':' ∷ []) ∷ (b',' ∷ []) ∷ [])
    → length key + 1 ≤ length rest
    → scan_key key (member_before k v rest) ≡ scan_key key (b'"' ∷ rest)
scan_key-member key k v rest plain (hk, (hv, (hc, (hs, end)))) le =
    let v_length = length-append v (b'"' ∷ b',' ∷ b'"' ∷ rest) in
    quote_past key k (b':' ∷ b'"' ∷ (v ++ b'"' ∷ b',' ∷ b'"' ∷ rest)) plain hk.0 hk.1
      (omega (arith, v_length))
    ∙ quote_past key (b':' ∷ []) (v ++ b'"' ∷ b',' ∷ b'"' ∷ rest) plain hc.0 hc.1
        (omega (arith, v_length))
    ∙ quote_past key v (b',' ∷ b'"' ∷ rest) plain hv.0 hv.1 (omega arith)
    ∙ quote_past key (b',' ∷ []) rest plain hs.0 hs.1 le

-- The reader finds the second of two members when neither the first key nor the first value is its key.
pub extract_json_string_fast-second :
    (k v key w rest : Bytes)
    → IsPlain key
    → All (λ name. IsPlain name × (name ≢ key)) (k ∷ v ∷ (b':' ∷ []) ∷ (b',' ∷ []) ∷ [])
    → is_empty key ≡ false
    → IsPlain w
    → extract_json_string_fast (b'{' ∷ member_before k v (key ++ after_name w rest)) key ≡ some w
unfolding extract_json_string_fast
extract_json_string_fast-second k v key w rest plain names full hw =
    let room : length key + 1 ≤ length (key ++ after_name w rest) =
      omega (arith, length-append key (after_name w rest)) in
    rw full (
      scan_key_past key (b'{' ∷ []) (member_before k v (key ++ after_name w rest)) (omega arith, tt)
        (omega (
          arith,
          length-append k (after_name v (b',' ∷ b'"' ∷ (key ++ after_name w rest))),
          length-append v (b'"' ∷ b',' ∷ b'"' ∷ (key ++ after_name w rest)),
        ))
      ∙ scan_key-member key k v (key ++ after_name w rest) plain names room
      ∙ scan_key_here key w rest hw)

-- The `get` of the encoder takes what the fast reader found.
pub get_fast :
    (json key v : Bytes)
    → is_empty v ≡ false
    → extract_json_string_fast json key ≡ some v
    → get json key ≡ v
unfolding get
get_fast json key v full e = rw (e, get, full) refl
