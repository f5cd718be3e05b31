-- ===== src/Json/Values.antt =====
-- What `extractJsonValue` makes of a member.
use linux.Base.{
  ℕ, ◌≡◌, refl, sym, ap, ap₂, ◌∙◌, ◌≢◌, inl, inr, true, false, ◌||◌, not, some, [], ◌∷◌, ◌++◌,
  append_assoc, arith, Bytes, All, eqb, eqb_refl, ◌==◌, ==_iff, Bool-cases, length, get_or, take,
  take_prefix,
}
use linux.Json.{find, quoted, value_from, extract_json_value, take_while, skip_while}
use linux.Json.Extract.{IsPlain, ne_test, after_name, member_text}
use linux.Json.Members.{no_quotes, member_before}

-- `find` goes past what does not begin the text that it looks for.
find_past :
    (c : ℕ) (needle pre s : Bytes)
    → All (λ x. x ≢ c) pre
    → find (c ∷ needle) (pre ++ s) ≡ find (c ∷ needle) s
unfolding find eqb
find_past c needle [] s h = refl
find_past c needle (x ∷ pre) s (h, hs) = rw (ne_test x c h) (find_past c needle pre s hs)

-- A name between quotes that is not the key does not begin the quoted key.
other_name :
    (key name rest : Bytes)
    → IsPlain key
    → IsPlain name
    → name ≢ key
    → eqb (take (length (key ++ b'"' ∷ [])) (name ++ b'"' ∷ rest)) (key ++ b'"' ∷ []) ≡ false
unfolding eqb
other_name [] [] rest k n ne = absurd (ne refl)
other_name [] (x ∷ name) rest k n ne = rw (ne_test x b'"' n.0.0) refl
other_name (c ∷ key) [] rest k n ne = rw (ne_test b'"' c (λ e. k.0.0 (sym e))) refl
other_name (c ∷ key) (x ∷ name) rest k n ne = elim (Bool-cases (x == c)) [
  | inl e ↦ rw e (other_name key name rest k.1 n.1 (λ f. ne (ap₂ ◌∷◌ ((==_iff x c).0 e) f)))
  | inr e ↦ rw e refl
]

find_quote_past :
    (key name rest : Bytes)
    → IsPlain key
    → IsPlain name
    → name ≢ key
    → find (quoted key) (b'"' ∷ (name ++ b'"' ∷ rest)) ≡ find (quoted key) (b'"' ∷ rest)
unfolding find eqb
find_quote_past key name rest k n ne =
    rw (other_name key name rest k n ne)
      (find_past b'"' (key ++ b'"' ∷ []) name (b'"' ∷ rest) (no_quotes name n))

find_here :
    (key rest : Bytes)
    → find (quoted key) (b'"' ∷ (key ++ b'"' ∷ rest)) ≡ some (b'"' ∷ (key ++ b'"' ∷ rest))
unfolding find eqb
find_here key rest =
    let starts : eqb (take (length (key ++ b'"' ∷ [])) (key ++ b'"' ∷ rest)) (key ++ b'"' ∷ [])
        ≡ true =
      ap (λ s. eqb (take (length (key ++ b'"' ∷ [])) s) (key ++ b'"' ∷ []))
        (sym (append_assoc key (b'"' ∷ []) rest))
      ∙ ap (λ s. eqb s (key ++ b'"' ∷ [])) (take_prefix (key ++ b'"' ∷ []) rest)
      ∙ eqb_refl (key ++ b'"' ∷ []) in
    rw starts refl

-- `extractJsonValue` ends a value at a quote, a comma or a brace.
abbrev pub cut : Bytes → Bytes
cut v = take_while (λ c. not (c == b'"' || c == b',' || c == b'}')) v

cut-quote : (v rest : Bytes) → cut (v ++ b'"' ∷ rest) ≡ cut v
unfolding take_while
cut-quote [] rest = refl
cut-quote (x ∷ v) rest = rw (cut-quote v rest) refl

colon_first : (s : Bytes) → find (b':' ∷ []) (b':' ∷ s) ≡ some (b':' ∷ s)
unfolding find eqb
colon_first s = refl

-- The value of the member that the text begins with.
value_here :
    (key v rest : Bytes)
    → All (λ c. c ≢ b':') key
    → IsPlain v
    → get_or v 0 b' ' ≢ b' '
    → value_from (find (b':' ∷ []) (member_text key v rest)) ≡ cut v
unfolding value_from skip_while
value_here key [] rest hk hv word = absurd (word refl)
value_here key (x ∷ v) rest hk hv word =
    let colon : find (b':' ∷ []) (member_text key (x ∷ v) rest)
        ≡ some (b':' ∷ b'"' ∷ (x ∷ v ++ b'"' ∷ rest)) =
      find_past b':' [] (b'"' ∷ []) (key ++ after_name (x ∷ v) rest) (omega arith, tt)
      ∙ find_past b':' [] key (after_name (x ∷ v) rest) hk
      ∙ find_past b':' [] (b'"' ∷ []) (b':' ∷ b'"' ∷ (x ∷ v ++ b'"' ∷ rest)) (omega arith, tt)
      ∙ colon_first (b'"' ∷ (x ∷ v ++ b'"' ∷ rest)) in
    let plain : (x == b' ' || x == b'"') ≡ false = ground (arith, word, hv.0.0) in
    rw (colon, plain) (cut-quote (x ∷ v) rest)

-- `extractJsonValue` on the first member of a text, its value being plain and not beginning with a space.
pub extract_json_value-first :
    (key v rest : Bytes)
    → All (λ c. c ≢ b':') key
    → IsPlain v
    → get_or v 0 b' ' ≢ b' '
    → extract_json_value (b'{' ∷ member_text key v rest) key ≡ cut v
unfolding extract_json_value
extract_json_value-first key v rest hk hv word =
    let here : find (quoted key) (b'{' ∷ member_text key v rest) ≡ some (member_text key v rest) =
      find_past b'"' (key ++ b'"' ∷ []) (b'{' ∷ []) (member_text key v rest) (omega arith, tt)
      ∙ find_here key (b':' ∷ b'"' ∷ (v ++ b'"' ∷ rest)) in
    rw (here, extract_json_value) (value_here key v rest hk hv word)

-- And on the second, when nothing before it is taken for the key.
pub extract_json_value-second :
    (k v key w rest : Bytes)
    → IsPlain key
    → All (λ name. IsPlain name × (name ≢ key)) (k ∷ v ∷ (b':' ∷ []) ∷ (b',' ∷ []) ∷ [])
    → All (λ c. c ≢ b':') key
    → IsPlain w
    → get_or w 0 b' ' ≢ b' '
    → extract_json_value (b'{' ∷ member_before k v (key ++ after_name w rest)) key ≡ cut w
unfolding extract_json_value
extract_json_value-second k v key w rest plain (hk, (hv, (hc, (hs, end)))) no_colon hw word =
    let tail = key ++ after_name w rest in
    let here : find (quoted key) (b'{' ∷ member_before k v tail) ≡ some (member_text key w rest) =
      find_past b'"' (key ++ b'"' ∷ []) (b'{' ∷ []) (member_before k v tail) (omega arith, tt)
      ∙ find_quote_past key k (b':' ∷ b'"' ∷ (v ++ b'"' ∷ b',' ∷ b'"' ∷ tail)) plain hk.0 hk.1
      ∙ find_quote_past key (b':' ∷ []) (v ++ b'"' ∷ b',' ∷ b'"' ∷ tail) plain hc.0 hc.1
      ∙ find_quote_past key v (b',' ∷ b'"' ∷ tail) plain hv.0 hv.1
      ∙ find_quote_past key (b',' ∷ []) tail plain hs.0 hs.1
      ∙ find_here key (b':' ∷ b'"' ∷ (w ++ b'"' ∷ rest)) in
    rw (here, extract_json_value) (value_here key w rest no_colon hw word)
