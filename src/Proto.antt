-- ===== src/Proto.antt =====
-- `decodeProtoToJson` of EpollChatServer.cpp: the fields of a protobuf body, and the JSON text that the
-- rest of the server reads. The loop over the body takes fuel; `none` means that the fuel ran out.
pub mod Fields
pub mod Steps
pub mod Loop
pub mod Messages
pub mod Objects
use linux.Base.{
  ℕ, zero, suc, ◌+◌, ◌/◌, ◌%◌, ◌^◌, bit_and, Bool, true, false, ◌||◌, Option, none, some, List, [],
  ◌∷◌, ◌++◌, Bytes, u64_mod, ltb, ◌==◌, if◌then◌else◌, length, take, drop, codes, is_empty,
}
use linux.Wire.{read_varint, skip_field}
use linux.Decimal.{parse_uint64_safe, to_string}
use Fields.{Decoded, no_fields, set_string, set_number}

-- The branch for wire type 2, from the answer of `readVarint` for the length on. `body.substr` cuts
-- at the end of the body, and the sum is that of `size_t`.
take_string : ℕ → ℕ → Bytes → Bool × ℕ × ℕ → Decoded → Option (ℕ × Decoded)
take_string msg_type field body (false, off, len) d = none
take_string msg_type field body (true, off, len) d =
    if ltb (length body) ((off + len) % u64_mod)
    then none
    else some ((off + len) % u64_mod, set_string msg_type field (take len (drop off body)) d)

-- The branch for wire type 0.
take_number : ℕ → ℕ → Bool × ℕ × ℕ → Decoded → Option (ℕ × Decoded)
take_number msg_type field (false, off, v) d = none
take_number msg_type field (true, off, v) d = some (off, set_number msg_type field v d)

-- Any other wire type.
skip_unknown : Bool × ℕ → Decoded → Option (ℕ × Decoded)
skip_unknown (false, off) d = none
skip_unknown (true, off) d = some (off, d)

-- What follows the key.
take_field : ℕ → Bytes → Bool × ℕ × ℕ → Decoded → Option (ℕ × Decoded)
unfolding take_string take_number skip_unknown
take_field msg_type body (false, off, key) d = none
take_field msg_type body (true, off, key) d =
    let field = key / 2 ^ 3 % 2 ^ 32 in
    let wt = bit_and key 0x7 in
    if wt == 2
    then take_string msg_type field body (read_varint body off) d
    else if wt == 0
    then take_number msg_type field (read_varint body off) d
    else skip_unknown (skip_field wt body off) d

-- One round of the loop: `none` is `return ""`.
pub decode_step : ℕ → Bytes → ℕ → Decoded → Option (ℕ × Decoded)
unfolding take_field
decode_step msg_type body off d = take_field msg_type body (read_varint body off) d

-- How the loop ends: on a malformed field, behind the last field, or not within the fuel.
pub data Outcome : Type 0 where
  malformed : Outcome
  complete : Decoded → Outcome
  running : Outcome

pub decode_loop : ℕ → ℕ → Bytes → ℕ → Decoded → Outcome
decode_loop zero msg_type body off d = running
decode_loop (suc fuel) msg_type body off d =
    let round : Outcome = elim (decode_step msg_type body off d) [
      | none ↦ malformed
      | some (off', d') ↦ decode_loop fuel msg_type body off' d'
    ] in
    if ltb off (length body) then round else complete d

-- The text under construction, and whether it has no member yet.
abbrev Members : Type 0
Members = Bytes × Bool

abbrev member : Bytes → Bytes → Bytes
member k v = codes "\"" ++ (k ++ (codes "\":\"" ++ (v ++ codes "\"")))

pub add_kv : Bytes → Bytes → Members → Members
add_kv k v (out, first) =
    if is_empty v
    then (out, first)
    else (out ++ ((if first then [] else codes ",") ++ member k v), false)

pub add_kv_num : Bytes → ℕ → Members → Members
add_kv_num k v (out, first) =
    if v == 0
    then (out, first)
    else (out ++ ((if first then [] else codes ",") ++ member k (to_string v)), false)

-- The numbers, with commas between them.
pub join_numbers : List ℕ → Bytes
join_numbers [] = []
join_numbers (v ∷ []) = to_string v
join_numbers (v ∷ w ∷ vs) = to_string v ++ (codes "," ++ join_numbers (w ∷ vs))

add_ids : List ℕ → Members → Members
add_ids ids (out, first) = if is_empty ids then (out, first) else (
  out
      ++ ((if first then [] else codes ",")
          ++ (codes "\"msg_ids\":[" ++ (join_numbers ids ++ codes "]"))),
  first,
)

-- The members of each message type, in the order of the source.
pub members : ℕ → Decoded → Members → Members
unfolding add_kv add_kv_num add_ids
members msg_type d m =
    if msg_type == 1
    then add_kv_num (codes "msg_id") d.msg_id (
        add_kv (codes "timestamp") d.timestamp (
          add_kv (codes "message") d.message
            (add_kv (codes "target") d.target (add_kv (codes "sender") d.sender m))))
    else if msg_type == 3
    then add_kv (codes "sender") d.sender m
    else if msg_type == 4
    then add_kv (codes "password") d.password (add_kv (codes "username") d.username m)
    else if msg_type == 7
    then add_kv (codes "peer") d.peer (add_kv (codes "last_timestamp") d.last_ts m)
    else if msg_type == 9
    then add_kv (codes "friend") d.friend_name m
    else if msg_type == 13
    then add_ids d.msg_ids (
        add_kv (codes "message") d.err_msg (
          add_kv (codes "user") d.user (
            add_kv_num (codes "msg_id") d.msg_id
              (add_kv_num (codes "type") d.ack_type (add_kv (codes "result") d.result m)))))
    else m

-- The message types that have a JSON form; any other decodes to the empty text.
pub has_json : ℕ → Bool
has_json t = t == 1 || t == 3 || t == 7 || t == 9 || t == 11 || t == 4 || t == 13

pub to_json : ℕ → Decoded → Bytes
to_json msg_type d =
    if has_json msg_type then (members msg_type d (codes "{", true)).0 ++ codes "}" else []

-- What the function returns for the loop's outcome.
pub finish : ℕ → Outcome → Option Bytes
finish msg_type malformed = some []
finish msg_type (complete d) = some (to_json msg_type d)
finish msg_type running = none

pub decode_proto_to_json : ℕ → ℕ → Bytes → Option Bytes
decode_proto_to_json fuel msg_type body =
    if is_empty body then some [] else finish msg_type (decode_loop fuel msg_type body 0 no_fields)
