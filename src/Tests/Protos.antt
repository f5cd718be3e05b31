-- ===== src/Tests/Protos.antt =====
-- The decoder at concrete messages.
use linux.Base.{
  zero, suc, ◌-◌, ◌<◌, ◌≡◌, refl, true, none, some, List, [], ◌∷◌, ◌++◌, arith, Bytes, u64_mod, All,
  length, length-append, codes,
}
use linux.Wire.{write_varint, write_string, read_varint, read_loop}
use linux.Wire.{read_varint}
use linux.Wire.RoundTrip.{read_varint-write_varint}
use linux.Proto.{decode_proto_to_json}
use linux.Proto.Loop.{NoWrap, decode_ends, decode_hangs}
use linux.Json.{take_while, extract_json_value, encode_json_to_proto}
use linux.Proto.Objects.{Request, login, text, IsRequest, is_plain, is_plain-IsPlain}
use linux.Proto.Objects.Back.{decode-encode_json_to_proto}
use linux.Proto.Objects.Login.{decode-login}
use linux.Proto.Messages.{write_string-length, write_all, StringField, IsField, chat_target_lost}

abbrev two_fields : List StringField
two_fields = (1, b'a' ∷ []) ∷ (2, b'b' ∷ b'c' ∷ []) ∷ []

two_fields-IsField : All IsField two_fields
two_fields-IsField = ((omega arith, omega arith), ((omega arith, omega arith), tt))

two_fields_short : length (write_all two_fields []) < u64_mod
unfolding write_all
two_fields_short = omega (
  arith,
  write_string-length 1 (b'a' ∷ []) [] (omega arith) (omega arith),
  write_string-length 2 (b'b' ∷ b'c' ∷ []) (write_string 1 (b'a' ∷ []) []) (omega arith)
      (omega arith),
)

one_field_short : length (write_string 3 (b'x' ∷ []) (1 ∷ []) ++ 9 ∷ []) < u64_mod
one_field_short = omega (
  arith,
  length-append (write_string 3 (b'x' ∷ []) (1 ∷ [])) (9 ∷ []),
  write_string-length 3 (b'x' ∷ []) (1 ∷ []) (omega arith) (omega arith),
)

-- A key and a string of one byte.
abbrev small_body : Bytes
small_body = 10 ∷ 1 ∷ b'a' ∷ []

small_body-NoWrap : NoWrap small_body
unfolding read_varint read_loop
small_body-NoWrap zero le ok = omega arith
small_body-NoWrap (suc zero) le ok = omega arith
small_body-NoWrap (suc (suc zero)) le ok = omega arith
small_body-NoWrap (suc (suc (suc zero))) le ok = omega arith
small_body-NoWrap (suc (suc (suc (suc n)))) le ok = absurd (omega arith)

decode_ends_example : (json : Bytes) × (decode_proto_to_json 4 3 small_body ≡ some json)
decode_ends_example = decode_ends 3 small_body small_body-NoWrap

decode_hangs_example :
    decode_proto_to_json 5 1 (write_varint (u64_mod - 11) (write_varint 10 []) ++ 7 ∷ []) ≡ none
decode_hangs_example = decode_hangs 5 1 1 (7 ∷ []) (omega arith)

chat_short :
    length (write_string 3 (b'm' ∷ []) (write_string 2 (b't' ∷ []) (write_string 1 (b's' ∷ []) [])))
    < u64_mod
chat_short = omega (
  arith,
  write_string-length 1 (b's' ∷ []) [] (omega arith) (omega arith),
  write_string-length 2 (b't' ∷ []) (write_string 1 (b's' ∷ []) []) (omega arith) (omega arith),
  write_string-length 3 (b'm' ∷ []) (write_string 2 (b't' ∷ []) (write_string 1 (b's' ∷ []) []))
      (omega arith) (omega arith),
)

chat_target_lost_example :
    decode_proto_to_json 4 1
      (write_string 3 (b'm' ∷ []) (write_string 2 (b't' ∷ []) (write_string 1 (b's' ∷ []) [])))
    ≡ some (codes "{\"sender\":\"" ++ (b's' ∷ (codes "\",\"message\":\"" ++ (b'm' ∷ codes "\"}"))))
chat_target_lost_example =
    chat_target_lost (b's' ∷ []) (b't' ∷ []) (b'm' ∷ []) 4 (omega arith) refl refl chat_short
      (omega arith, (omega arith, (omega arith, tt)))

abbrev alice_logs_in : Request
alice_logs_in = login (codes "alice") (codes "p,q")

alice_logs_in-IsRequest : IsRequest alice_logs_in
unfolding is_plain
alice_logs_in-IsRequest = (
  (refl, is_plain-IsPlain (codes "alice") refl, omega arith),
  (refl, is_plain-IsPlain (codes "p,q") refl, omega arith),
  λ e. cc,
)

decode-encode_json_to_proto_example :
    decode_proto_to_json 3 4 (encode_json_to_proto 4 (text alice_logs_in))
    ≡ some (text alice_logs_in)
decode-encode_json_to_proto_example =
    decode-encode_json_to_proto alice_logs_in 3 alice_logs_in-IsRequest (omega arith)

decode-login_example :
    (decode_proto_to_json 3 4 (encode_json_to_proto 4 (text alice_logs_in))
      ≡ some (text alice_logs_in))
    × (extract_json_value (text alice_logs_in) (codes "username") ≡ codes "alice")
    × (extract_json_value (text alice_logs_in) (codes "password") ≡ codes "p")
unfolding take_while
decode-login_example =
    decode-login (codes "alice") (codes "p,q") 3 alice_logs_in-IsRequest (omega arith) (omega arith)
      (omega arith)

abbrev one_before : Bytes
one_before = 9 ∷ []

read_varint-write_varint_example :
    read_varint (write_varint 300 one_before ++ 7 ∷ []) (length one_before)
    ≡ (true, length (write_varint 300 one_before), 300)
read_varint-write_varint_example = read_varint-write_varint 300 one_before (7 ∷ []) (omega arith)
