-- ===== src/Pending.antt =====
-- The messages that wait for an ACK, kept in Redis: `storePendingMessage`, `ackPendingMessage`,
-- `fetchPendingMessages`, `dispatchDueMessagesForUser` and `retryLoop` of EpollChatServer.cpp.
-- Redis is a parameter. A clock reading is an argument, in milliseconds.
pub mod Commands
pub mod Keys
pub mod Store
pub mod Retry
pub mod Waiting
pub mod Attempts
pub mod Toy
use linux.Base.{
  ℕ, suc, ◌+◌, ◌-◌, ◌%◌, Bool, true, false, ◌&&◌, ◌||◌, not, Option, none, some, List, [], ◌∷◌,
  ◌++◌, Bytes, u64_mod, leb, ◌==◌, if◌then◌else◌, length, codes, is_empty,
}
use linux.Decimal.{to_string, is_digit}
use linux.Json.{skip_while, take_while, extract_json_value, stoull}
use linux.Pending.Commands.{
  Redis, Reply, null_reply, nil_reply, string_reply, integer_reply, array_reply, c_str,
}

abbrev pub retry_delay_ms : ℕ
retry_delay_ms = 3000

abbrev pub retry_batch_per_user : ℕ
retry_batch_per_user = 50

abbrev pub retry_max_attempts : ℕ
retry_max_attempts = 5

unfoldable pub payload_key : Bytes → Bytes
payload_key user = codes "chat:pending:" ++ user

pub schedule_key : Bytes → Bytes
schedule_key user = codes "chat:pending_schedule:" ++ user

pub attempts_key : Bytes → Bytes
attempts_key user = codes "chat:pending_attempts:" ++ user

pub users_key : Bytes
users_key = codes "chat:pending_users"

-- `isspace`.
unfoldable pub is_space : ℕ → Bool
is_space c = c == b' ' || (leb 9 c && leb c 13)

-- The digits at the head of a text, as `std::stoull` reads them; `none` when it throws.
unfoldable pub parse_digits : Bytes → Option ℕ
parse_digits s = if is_empty (take_while is_digit s) then none else stoull (take_while is_digit s)

abbrev negated : Option ℕ → Option ℕ
negated none = none
negated (some v) = some ((u64_mod - v) % u64_mod)

unfoldable pub signed_digits : Bytes → Option ℕ
unfolding parse_digits
signed_digits [] = none
signed_digits (c ∷ s) =
    if c == b'-'
    then negated (parse_digits s)
    else if c == b'+'
    then parse_digits s
    else parse_digits (c ∷ s)

-- `std::stoull` of any text: blanks, a sign, digits.
unfoldable pub stoull_text : Bytes → Option ℕ
unfolding is_space signed_digits
stoull_text s = signed_digits (skip_while is_space s)

-- `effectiveId`: the given id, or the one in the message; `none` where the function returns `false`.
message_id : ℕ → Bytes → Option ℕ
message_id msg_id json =
    let parsed = extract_json_value json (codes "msg_id") in
    if msg_id == 0 then if is_empty parsed then none else stoull_text parsed else some msg_id

-- `std::atoi`, for the texts of the numbers that `setPendingAttempt` writes.
pub atoi : Bytes → ℕ
atoi s = elim (stoull (take_while is_digit s)) [ none ↦ 0 | some v ↦ v ]

-- The ids of an ACK that are not 0, as texts.
pub id_texts : List ℕ → List Bytes
id_texts [] = []
id_texts (v ∷ ids) = let rest = id_texts ids in if v == 0 then rest else to_string v ∷ rest

module _ {ℓ} {S : Type ℓ} (redis : Redis S) where
  open redis use {
    connected, eval, hset, hget, hdel, zadd, zrem, sadd, expire, zrange, zrange_by_score, smembers,
  }

  -- The Lua script of `storePendingMessage`.
  pub store_script : Bytes → Bytes → Bytes → ℕ → S → Reply × S
  store_script user id json due s = (
    integer_reply 1,
    expire (attempts_key user) 604800 (
        expire (schedule_key user) 604800 (
          expire (payload_key user) 604800 (
            sadd users_key user (
              hset (attempts_key user) id (to_string 0)
                (zadd (schedule_key user) due id (hset (payload_key user) id json s)))))),
  )

  stored_reply : Reply × S → Bool × S
  stored_reply (integer_reply v, s) = (v == 1, s)
  stored_reply (_, s) = (false, s)

  store_with : Bytes → Bytes → ℕ → Option ℕ → S → Bool × S
  unfolding stored_reply
  store_with user json now none s = (false, s)
  store_with user json now (some id) s =
      if id == 0 || not connected
      then (false, s)
      else stored_reply (eval (store_script user (to_string id) json (now + retry_delay_ms)) s)

  pub store_pending_message : Bytes → ℕ → Bytes → ℕ → S → Bool × S
  unfolding store_with message_id
  store_pending_message user msg_id json now s =
      if is_empty user || is_empty json
      then (false, s)
      else store_with user json now (message_id msg_id json) s

  -- The Lua script of `ackPendingMessage`.
  pub ack_script : Bytes → List Bytes → S → Reply × S
  ack_script user [] s = (integer_reply 0, s)
  ack_script user (id ∷ ids) s =
      let s' =
        hdel (attempts_key user) id (zrem (schedule_key user) id (hdel (payload_key user) id s)) in
      let (_, out) = ack_script user ids s' in (integer_reply (suc (length ids)), out)

  pub ack_pending_message : Bytes → List ℕ → S → S
  ack_pending_message user msg_ids s =
      if is_empty user || is_empty msg_ids || not connected || is_empty (id_texts msg_ids)
      then s
      else (eval (ack_script user (id_texts msg_ids)) s).1

  -- The loop over the ids of a batch. An id without payload leaves the schedule.
  unfoldable pub payload_of : Bytes → Bytes → List Bytes × S → Reply × S → List Bytes × S
  payload_of user id (messages, _) (string_reply v, s) = (messages ++ c_str v ∷ [], s)
  payload_of user id (messages, _) (null_reply, s) = (messages, s)
  payload_of user id (messages, _) (_, s) = (messages, zrem (schedule_key user) id s)

  unfoldable pub collect : Bytes → List (Option Bytes) → List Bytes × S → List Bytes × S
  unfolding payload_of
  collect user [] (messages, s) = (messages, s)
  collect user (none ∷ ids) (messages, s) = collect user ids (messages, s)
  collect user (some id ∷ ids) (messages, s) =
      collect user ids
        (payload_of user (c_str id) (messages, s) (hget (c_str (payload_key user)) (c_str id) s))

  unfoldable pub collect_reply : Bytes → Reply × S → List Bytes × S
  unfolding collect
  collect_reply user (array_reply ids, s) = collect user ids ([], s)
  collect_reply user (_, s) = ([], s)

  unfoldable pub fetch_pending_messages : Bytes → ℕ → Bool → ℕ → S → List Bytes × S
  unfolding collect_reply
  fetch_pending_messages user limit due_only now s =
      if is_empty user || limit == 0 || not connected
      then ([], s)
      else collect_reply user (
          if due_only
          then zrange_by_score (c_str (schedule_key user)) now limit s
          else zrange (c_str (schedule_key user)) 0 (limit - 1) s)

  attempt_of : Reply × S → ℕ × S
  attempt_of (string_reply v, s) = (atoi (c_str v), s)
  attempt_of (_, s) = (0, s)

  pub get_pending_attempt : Bytes → Bytes → S → ℕ × S
  unfolding attempt_of
  get_pending_attempt user id s =
      if connected then attempt_of (hget (c_str (attempts_key user)) (c_str id) s) else (0, s)

  pub set_pending_attempt : Bytes → Bytes → ℕ → S → S
  set_pending_attempt user id attempt s =
      if connected then hset (c_str (attempts_key user)) (c_str id) (to_string attempt) s else s

  -- One round of `dispatchDueMessagesForUser`: whether the message is sent, and the state after it.
  pub dispatch_message : Bytes → Bool → ℕ → Bytes → S → Bool × S
  dispatch_message user include_all now msg s =
      let id = extract_json_value msg (codes "msg_id") in
      let (attempt, s') = get_pending_attempt user id s in
      let next = if include_all then attempt else attempt + 1 in
      if is_empty id
      then (false, s)
      else if leb retry_max_attempts attempt && not include_all
      then (false, s')
      else (
        true,
        if connected
            then zadd (c_str (schedule_key user)) (now + retry_delay_ms) (c_str id)
                (set_pending_attempt user id next s')
            else s',
      )

  -- The messages that are sent, in order; `now` is the clock when each is.
  pub dispatch_messages : Bytes → Bool → (Bytes → ℕ) → List Bytes → S → List Bytes × S
  unfolding dispatch_message
  dispatch_messages user include_all now [] s = ([], s)
  dispatch_messages user include_all now (msg ∷ msgs) s =
      let (sent, s') = dispatch_message user include_all (now msg) msg s in
      let (later, out) = dispatch_messages user include_all now msgs s' in
      (if sent then msg ∷ later else later, out)

  pub dispatch_due_messages_for_user : Bytes → Bool → ℕ → (Bytes → ℕ) → S → List Bytes × S
  dispatch_due_messages_for_user user include_all start now s =
      let (msgs, s') = fetch_pending_messages user retry_batch_per_user (not include_all) start s in
      if is_empty user then ([], s) else dispatch_messages user include_all now msgs s'

  -- A round of `retryLoop`; `online` is `getOnlineCtx`, as far as there is a context.
  pub retry_users :
      (Bytes → Bool) → ℕ → (Bytes → ℕ) → List (Option Bytes) → S → List (Bytes × List Bytes) × S
  retry_users online start now [] s = ([], s)
  retry_users online start now (none ∷ users) s = retry_users online start now users s
  retry_users online start now (some u ∷ users) s =
      let user = c_str u in
      let skipped = retry_users online start now users s in
      let (msgs, s') = dispatch_due_messages_for_user user false start now s in
      let (later, out) = retry_users online start now users s' in
      if online user then ((user, msgs) ∷ later, out) else skipped

  retry_reply : (Bytes → Bool) → ℕ → (Bytes → ℕ) → Reply × S → List (Bytes × List Bytes) × S
  unfolding retry_users
  retry_reply online start now (array_reply users, s) = retry_users online start now users s
  retry_reply online start now (_, s) = ([], s)

  pub retry_round : (Bytes → Bool) → ℕ → (Bytes → ℕ) → S → List (Bytes × List Bytes) × S
  unfolding retry_reply
  retry_round online start now s =
      if connected then retry_reply online start now (smembers users_key s) else ([], s)
