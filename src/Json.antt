-- ===== src/Json.antt =====
-- The JSON readers of EpollChatServer.cpp and `encodeJsonToProto`. A position in the text is what the text
-- holds from there on.
pub mod Extract
pub mod Numbers
pub mod Members
pub mod Values
use linux.Base.{
  ℕ, zero, suc, ◌+◌, ◌-◌, ◌*◌, Bool, false, ◌&&◌, ◌||◌, not, Option, none, some, List, [], ◌∷◌,
  ◌++◌, Bytes, u64_mod, eqb, ltb, leb, ◌==◌, if◌then◌else◌, length, get_or, take, drop, codes,
  is_empty,
}
use linux.Decimal.{is_digit, parse_uint64_safe}
use linux.Wire.{write_string, write_uint64}

-- A blank of `extractJsonStringFast`: space, tab, carriage return, line feed.
unfoldable pub is_blank : ℕ → Bool
is_blank c = c == b' ' || c == 9 || c == 13 || c == 10

-- The text from the first character on that a test refuses, and what stands before it.
unfoldable pub skip_while : (ℕ → Bool) → Bytes → Bytes
skip_while p [] = []
skip_while p (c ∷ s) = let rest = skip_while p s in if p c then rest else c ∷ s

unfoldable pub take_while : (ℕ → Bool) → Bytes → Bytes
take_while p [] = []
take_while p (c ∷ s) = let rest = take_while p s in if p c then c ∷ rest else []

abbrev with_char : ℕ → Option Bytes → Option Bytes
with_char c none = none
with_char c (some v) = some (c ∷ v)

-- The value up to a quote with no backslash before it; the first character counts as having none.
unfoldable pub scan_value : Bool → Bytes → Option Bytes
scan_value escaped [] = none
scan_value escaped (c ∷ s) =
    let rest = scan_value (c == b'\\') s in
    if c == b'"' && not escaped then some [] else with_char c rest

unfoldable pub open_quote : Bytes → Option Bytes
open_quote [] = none
open_quote (c ∷ s) = if c == b'"' then scan_value false s else none

unfoldable pub colon : Bytes → Option Bytes
unfolding open_quote
colon [] = none
colon (c ∷ s) = if c == b':' then open_quote (skip_while is_blank s) else none

-- The loop of `extractJsonStringFast`. Only the first key that matches is read.
unfoldable pub scan_key : Bytes → Bytes → Option Bytes
unfolding colon
scan_key key [] = none
scan_key key (c ∷ s) =
    let later = scan_key key s in
    if ltb (length (c ∷ s)) (length key + 2)
    then none
    else if c == b'"' && eqb (take (length key) s) key && get_or s (length key) 0 == b'"'
    then colon (skip_while is_blank (drop (length key + 1) s))
    else later

unfoldable pub extract_json_string_fast : Bytes → Bytes → Option Bytes
extract_json_string_fast json key = if is_empty key then none else scan_key key json

-- `std::string::find` of a text: the rest of the string from its first occurrence on.
unfoldable pub find : Bytes → Bytes → Option Bytes
find needle [] = if is_empty needle then some [] else none
find needle (c ∷ s) =
    let later = find needle s in
    if eqb (take (length needle) (c ∷ s)) needle then some (c ∷ s) else later

abbrev pub quoted : Bytes → Bytes
quoted key = b'"' ∷ key ++ b'"' ∷ []

unfoldable pub value_from : Option Bytes → Bytes
value_from none = []
value_from (some s) =
    take_while (λ c. not (c == b'"' || c == b',' || c == b'}'))
      (skip_while (λ c. c == b' ' || c == b'"') (drop 1 s))

-- `extractJsonValueLite`, which is also `extractJsonValue`.
unfoldable pub extract_json_value : Bytes → Bytes → Bytes
unfolding value_from
extract_json_value json key = elim (find (quoted key) json) [
  | none ↦ []
  | some s ↦ value_from (find (b':' ∷ []) s)
]

-- The number that a text of digits writes, after the digits of `v`.
unfoldable pub digits_value : Bytes → ℕ → ℕ
digits_value [] v = v
digits_value (c ∷ s) v = digits_value s (v * 10 + (c - b'0'))

-- `std::stoull` of a text of digits: `none` when it throws `std::out_of_range`.
unfoldable pub stoull : Bytes → Option ℕ
unfolding digits_value
stoull s = let v = digits_value s 0 in if ltb v u64_mod then some v else none

abbrev push_number : Option ℕ → List ℕ → List ℕ
push_number none out = out
push_number (some v) out = out ++ v ∷ []

is_separator : ℕ → Bool
unfolding is_blank
is_separator c = is_blank c || c == b','

-- `json[pos] != ',' && json[pos] != ']'`.
inside : ℕ → Bool
inside c = not (c == b',' || c == b']')

-- The loop of `parseJsonUint64ArrayFast`. Each round that goes on reads a character, so that the length of
-- the text is fuel enough.
array_loop : ℕ → ℕ → Bytes → List ℕ → List ℕ
unfolding stoull is_separator inside
array_loop zero max_count s out = out
array_loop (suc fuel) max_count s out =
    let here = skip_while is_separator s in
    let digits = take_while is_digit here in
    let out' = if is_empty digits then out else push_number (stoull digits) out in
    let after = skip_while inside (skip_while is_digit here) in
    let rest = array_loop fuel max_count after out' in
    if is_empty s || leb max_count (length out) || is_empty here || get_or here 0 0 == b']'
    then out
    else if get_or after 0 0 == b']'
    then out'
    else rest

array_from : ℕ → Option Bytes → List ℕ
unfolding array_loop
array_from max_count none = []
array_from max_count (some s) = array_loop (length s) max_count (drop 1 s) []

unfoldable pub parse_json_uint64_array : Bytes → Bytes → ℕ → List ℕ
unfolding array_from
parse_json_uint64_array json key max_count =
    if is_empty key then [] else elim (find (quoted key) json) [
      | none ↦ []
      | some s ↦ array_from max_count (find (b'[' ∷ []) (drop (length (quoted key)) s))
    ]

-- The `get` of `encodeJsonToProto`.
pub get : Bytes → Bytes → Bytes
get json k = elim (extract_json_string_fast json k) [
  | none ↦ extract_json_value json k
  | some v ↦ if is_empty v then extract_json_value json k else v
]

-- `if (!v.empty()) pb::writeString(…)` and `if (v > 0) pb::writeUint64(…)`.
unfoldable pub put_string : ℕ → Bytes → Bytes → Bytes
put_string field v out = if is_empty v then out else write_string field v out

put_number : ℕ → ℕ → Bytes → Bytes
put_number field v out = if ltb 0 v then write_uint64 field v out else out

put_numbers : ℕ → List ℕ → Bytes → Bytes
unfolding put_number
put_numbers field [] out = out
put_numbers field (v ∷ vs) out = put_numbers field vs (put_number field v out)

encode_ack : Bytes → Bytes
unfolding put_string put_numbers
encode_ack json = put_numbers 5 (parse_json_uint64_array json (codes "msg_ids") 256) (
    put_string 5 (get json (codes "message")) (
      put_string 4 (get json (codes "user")) (
        put_number 3 (parse_uint64_safe (get json (codes "msg_id"))) (
          put_number 2 (parse_uint64_safe (get json (codes "type")))
            (put_string 1 (get json (codes "result")) [])))))

encode_chat : Bytes → Bytes
unfolding put_string put_number
encode_chat json = put_string 5 (get json (codes "timestamp")) (
    put_number 4 (parse_uint64_safe (get json (codes "msg_id"))) (
      put_string 3 (get json (codes "message"))
        (put_string 2 (get json (codes "target")) (put_string 1 (get json (codes "sender")) []))))

-- `get("peer")`, or `get("target")` when that is empty.
unfoldable pub peer_of : Bytes → Bytes
peer_of json =
    let peer = get json (codes "peer") in if is_empty peer then get json (codes "target") else peer

unfoldable pub encode_json_to_proto : ℕ → Bytes → Bytes
unfolding encode_ack encode_chat peer_of
encode_json_to_proto msg_type json =
    if is_empty json
    then []
    else if msg_type == 1
    then encode_chat json
    else if msg_type == 3
    then put_string 1 (get json (codes "sender")) []
    else if msg_type == 4
    then put_string 2 (get json (codes "password")) (put_string 1 (get json (codes "username")) [])
    else if msg_type == 5
    then put_string 2 (get json (codes "message")) (put_string 1 (get json (codes "result")) [])
    else if msg_type == 7
    then put_string 2 (peer_of json) (put_string 1 (get json (codes "last_timestamp")) [])
    else if msg_type == 9
    then put_string 1 (get json (codes "friend")) []
    else if msg_type == 10
    then put_string 3 (get json (codes "friend"))
        (put_string 2 (get json (codes "message")) (put_string 1 (get json (codes "result")) []))
    else if msg_type == 13
    then encode_ack json
    else json
