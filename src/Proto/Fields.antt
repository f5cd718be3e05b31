-- ===== src/Proto/Fields.antt =====
-- The local variables of `decodeProtoToJson`, and which of them a field is stored in.
use linux.Base.{ℕ, ◌≡◌, ◌&&◌, ◌||◌, List, [], ◌∷◌, ◌++◌, arith, Bytes, ltb, ◌==◌, if◌then◌else◌}
use linux.Decimal.{parse_uint64_safe}

pub record Decoded : Type 0 where
  pub sender : Bytes
  pub target : Bytes
  pub message : Bytes
  pub timestamp : Bytes
  pub result : Bytes
  pub username : Bytes
  pub password : Bytes
  pub user : Bytes
  pub last_ts : Bytes
  pub peer : Bytes
  pub friend_name : Bytes
  pub err_msg : Bytes
  pub msg_id : ℕ
  pub ack_type : ℕ
  pub msg_ids : List ℕ

abbrev pub no_fields : Decoded
no_fields = record {
  sender = [];
  target = [];
  message = [];
  timestamp = [];
  result = [];
  username = [];
  password = [];
  user = [];
  last_ts = [];
  peer = [];
  friend_name = [];
  err_msg = [];
  msg_id = 0;
  ack_type = 0;
  msg_ids = [];
}

-- `uint64_t tmp = parseUint64Safe(v); if (tmp > 0) msgId = tmp;`
pub set_msg_id : Bytes → Decoded → Decoded
set_msg_id v d =
    if ltb 0 (parse_uint64_safe v) then record d { msg_id = parse_uint64_safe v } else d

-- A length-delimited field.
unfoldable pub set_string : ℕ → ℕ → Bytes → Decoded → Decoded
set_string msg_type field v d =
    if field == 1
    then if msg_type == 4
      then record d { username = v }
      else if msg_type == 5 || msg_type == 10
      then record d { result = v }
      else if msg_type == 7
      then record d { last_ts = v }
      else if msg_type == 9
      then record d { friend_name = v }
      else if msg_type == 13
      then record d { result = v }
      else record d { sender = v }
    else if field == 2
    then if msg_type == 4
      then record d { password = v }
      else if msg_type == 5 || msg_type == 10 || msg_type == 13
      then record d { err_msg = v }
      else record d { peer = v }
    else if field == 3
    then if msg_type == 13 then set_msg_id v d else record d { message = v }
    else if field == 4
    then if msg_type == 13 then record d { user = v } else set_msg_id v d
    else if field == 5
    then if msg_type == 13 then record d { err_msg = v } else record d { timestamp = v }
    else d

-- A varint field.
unfoldable pub set_number : ℕ → ℕ → ℕ → Decoded → Decoded
set_number msg_type field v d =
    if field == 2 && msg_type == 13
    then record d { ack_type = v }
    else if field == 3 && msg_type == 13
    then record d { msg_id = v }
    else if field == 4
    then record d { msg_id = v }
    else if field == 5 && msg_type == 13
    then record d { msg_ids = d.msg_ids ++ v ∷ [] }
    else d

-- No field of a body is stored in `target`.
pub target-set_string :
    (msg_type field : ℕ) (v : Bytes) (d : Decoded)
    → (set_string msg_type field v d).target ≡ d.target
unfolding set_string set_msg_id
target-set_string msg_type field v d = ground arith

pub target-set_number :
    (msg_type field v : ℕ) (d : Decoded) → (set_number msg_type field v d).target ≡ d.target
unfolding set_number
target-set_number msg_type field v d = ground arith
