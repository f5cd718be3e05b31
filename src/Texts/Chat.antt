-- ===== src/Texts/Chat.antt =====
-- The id in a chat body is the one that retries and ACKs find.
use linux.Base.{
  ℕ, ◌<◌, ◌≡◌, refl, ap, ◌∙◌, true, false, ◌||◌, not, [], ◌∷◌, ◌++◌, arith, Bytes, u64_mod, All,
  eqb, ◌==◌, length, codes,
}
use linux.Decimal.{to_string, IsDigit}
use linux.Json.{take_while, skip_while, find, value_from, extract_json_value}
use linux.Json.Numbers.{to_string-digits, to_string-nonempty}
use linux.Texts.{build_enriched_chat_body_with_msg_id}

-- The value that stands before a quote, when it begins with a digit and has only digits.
value_digits :
    (xs rest : Bytes)
    → All IsDigit xs
    → take_while (λ c. not (c == b'"' || c == b',' || c == b'}')) (xs ++ b'"' ∷ rest) ≡ xs
unfolding take_while
value_digits [] rest h = refl
value_digits (x ∷ xs) rest (h, hs) =
    let plain : not (x == b'"' || x == b',' || x == b'}') ≡ true = ground arith in
    rw (plain, value_digits xs rest hs) refl

first_digit :
    (xs rest : Bytes)
    → 0 < length xs
    → All IsDigit xs
    → skip_while (λ c. c == b' ' || c == b'"') (xs ++ rest) ≡ xs ++ rest
unfolding skip_while
first_digit [] rest pos h = absurd (omega arith)
first_digit (x ∷ xs) rest pos (h, hs) =
    let plain : (x == b' ' || x == b'"') ≡ false = ground arith in rw plain refl

-- The reader of `dispatchDueMessagesForUser` finds in a chat body the id that the body was built with, whatever
-- the names, the text and the time are.
pub extract_json_value-msg_id :
    (msg_id : ℕ) (sender target message ts : Bytes)
    → msg_id < u64_mod
    → extract_json_value
        (build_enriched_chat_body_with_msg_id msg_id sender target message ts)
        (codes "msg_id")
      ≡ to_string msg_id
unfolding extract_json_value find value_from skip_while build_enriched_chat_body_with_msg_id eqb
extract_json_value-msg_id msg_id sender target message ts h =
    let digits = to_string-digits msg_id h in
    ap (take_while (λ c. not (c == b'"' || c == b',' || c == b'}')))
      (first_digit (to_string msg_id) _ (to_string-nonempty msg_id) digits)
    ∙ value_digits (to_string msg_id) _ digits
