-- ===== src/Json/Extract.antt =====
-- The fast reader finds the value of the first member that has the key.
use linux.Base.{
  ℕ, ◌+◌, ◌≤◌, ◌≡◌, refl, sym, ap, ◌∙◌, ◌≢◌, true, false, some, [], ◌∷◌, ◌++◌, arith, Bytes, All,
  eqb, eqb_refl, ltb, ◌==◌, length, get_or, take, drop, length-append, take_prefix, drop_prefix,
  drop-drop, is_empty, get_or-append_right,
}
use linux.Json.{
  skip_while, is_blank, scan_value, scan_key, extract_json_string_fast, colon, open_quote,
}

-- No quote and no backslash.
abbrev pub IsPlain : Bytes → Type 0
IsPlain v = All (λ c. (c ≢ b'"') × (c ≢ b'\\')) v

pub ne_test : (a b : ℕ) → a ≢ b → (a == b) ≡ false
ne_test a b h = ground arith

scan_value_plain : (v rest : Bytes) → IsPlain v → scan_value false (v ++ b'"' ∷ rest) ≡ some v
unfolding scan_value
scan_value_plain [] rest h = refl
scan_value_plain (c ∷ v) rest (h, hs) =
    rw (ne_test c b'"' h.0, ne_test c b'\\' h.1, scan_value_plain v rest hs) refl

abbrev pub after_name : Bytes → Bytes → Bytes
after_name v rest = b'"' ∷ b':' ∷ b'"' ∷ (v ++ b'"' ∷ rest)

-- A member with this key, its value after one colon.
abbrev pub member_text : Bytes → Bytes → Bytes → Bytes
member_text key v rest = b'"' ∷ (key ++ after_name v rest)

pub scan_key_here :
    (key v rest : Bytes) → IsPlain v → scan_key key (member_text key v rest) ≡ some v
unfolding scan_key colon open_quote skip_while is_blank
scan_key_here key v rest h =
    let long : ltb (length (member_text key v rest)) (length key + 2) ≡ false =
      ground (arith, length-append key (after_name v rest)) in
    let matches : eqb (take (length key) (key ++ after_name v rest)) key ≡ true =
      ap (λ k. eqb k key) (take_prefix key (after_name v rest)) ∙ eqb_refl key in
    let closed : get_or (key ++ after_name v rest) (length key) 0 ≡ b'"' =
      ap (λ k. get_or (key ++ after_name v rest) k 0) (omega arith)
      ∙ get_or-append_right key (after_name v rest) 0 0 in
    let after : drop (length key + 1) (key ++ after_name v rest)
        ≡ b':' ∷ b'"' ∷ (v ++ b'"' ∷ rest) =
      sym (drop-drop 1 (length key) (key ++ after_name v rest))
      ∙ ap (drop 1) (drop_prefix key (after_name v rest)) in
    rw (long, matches, closed, after) (scan_value_plain v rest h)

pub scan_key_past :
    (key pre s : Bytes)
    → All (λ c. c ≢ b'"') pre
    → length key + 2 ≤ length s
    → scan_key key (pre ++ s) ≡ scan_key key s
unfolding scan_key
scan_key_past key [] s h le = refl
scan_key_past key (c ∷ pre) s (h, hs) le =
    let long : ltb (length (c ∷ (pre ++ s))) (length key + 2) ≡ false =
      ground (arith, length-append pre s) in
    rw (long, ne_test c b'"' h) (scan_key_past key pre s hs le)

-- The fast reader finds the value of a member, when the text before it has no quote, as after `{`, and the
-- value has neither quotes nor backslashes; what follows is not looked at.
pub extract_json_string_fast-member :
    (key v pre rest : Bytes)
    → is_empty key ≡ false
    → All (λ c. c ≢ b'"') pre
    → IsPlain v
    → extract_json_string_fast (pre ++ member_text key v rest) key ≡ some v
unfolding extract_json_string_fast
extract_json_string_fast-member key v pre rest hk hp hv = rw hk (
    scan_key_past key pre (member_text key v rest) hp
      (omega (arith, length-append key (after_name v rest)))
    ∙ scan_key_here key v rest hv)
