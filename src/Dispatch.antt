-- ===== src/Dispatch.antt =====
-- Requests: `processPacket` of EpollChatServer.cpp, by the type of the packet. Metrics are left out. The
-- context is never null here, and `ctx->accountID` is the account in it when the packet is processed.
pub mod State
pub mod Run
pub mod Steps
pub mod Accounts
pub mod Private
pub mod Chat
pub mod Broadcast
use linux.Base.{
  ℕ, Bool, ◌||◌, Option, none, some, List, [], ◌∷◌, ◌++◌, Bytes, eqb, ◌==◌, if◌then◌else◌, codes,
  is_empty,
}
use linux.Decimal.{to_string}
use linux.Json.{extract_json_value, extract_json_string_fast, parse_json_uint64_array}
use linux.Texts.{build_enriched_chat_body_with_msg_id, build_session_id}
use linux.Snowflake.{next_id}
use linux.Registry.{ClientContext, is_current_session_valid, snapshot_all_clients, get_online_ctx}
use linux.Pending.{stoull_text}
use linux.Dispatch.State.{
  Server, World, Task, store_and_send, login, ack_messages, read_history, add_friend, list_friends,
  send, send_all, enqueue_db_task, enqueue_redis_task, log_chat, bind_account,
}

abbrev pub msg_type_ack : ℕ
msg_type_ack = 13

abbrev with_field : Option Bytes → Option (Bytes × Bytes) → Option (Bytes × Bytes × Bytes)
with_field none fs = none
with_field (some v) none = none
with_field (some v) (some (a, b)) = some (v, a, b)

abbrev both_fields : Option Bytes → Option Bytes → Option (Bytes × Bytes)
both_fields none b = none
both_fields (some a) none = none
both_fields (some a) (some b) = some (a, b)

unfoldable pub parse_chat_fields_fast : Bytes → Option (Bytes × Bytes × Bytes)
parse_chat_fields_fast json = with_field (extract_json_string_fast json (codes "sender")) (
    both_fields (extract_json_string_fast json (codes "target"))
      (extract_json_string_fast json (codes "message")))

-- Sender, target and content of a chat message.
unfoldable pub chat_fields : Bytes → Bytes × Bytes × Bytes
unfolding parse_chat_fields_fast
chat_fields body = elim (parse_chat_fields_fast body) [
  | none ↦ (
    extract_json_value body (codes "sender"),
    extract_json_value body (codes "target"),
    extract_json_value body (codes "message"),
  )
  | some fields ↦ fields
]

pub ack_body : ℕ → Bytes
ack_body msg_id =
    codes "{\"result\":\"received\",\"type\":1,\"msg_id\":\"" ++ (to_string msg_id ++ codes "\"}")

unfoldable pub single_id : Option ℕ → List ℕ
single_id none = []
single_id (some v) = if v == 0 then [] else v ∷ []

-- The ids that an ACK names: the array, or else the one id.
unfoldable pub acked_ids : Bytes → List ℕ
unfolding single_id
acked_ids body =
    let ids = parse_json_uint64_array body (codes "msg_ids") 256 in
    let one = extract_json_value body (codes "msg_id") in
    if is_empty ids then if is_empty one then [] else single_id (stoull_text one) else ids

pub or_else : Bytes → Bytes → Bytes
or_else a b = if is_empty a then b else a

abbrev pub failed : Bytes → Bytes
failed message = codes "{\"result\":\"fail\",\"message\":\"" ++ (message ++ codes "\"}")

abbrev pub own_friend : Bytes
own_friend = failed (
    228 ∷ 184 ∷ 141 ∷ 232 ∷ 131 ∷ 189 ∷ 230 ∷ 183 ∷ 187 ∷ 229 ∷ 138 ∷ 160 ∷ 232 ∷ 135 ∷ 170 ∷ 229
    ∷ 183 ∷ 177 ∷ [])

abbrev pub system_busy : Bytes
system_busy = failed (231 ∷ 179 ∷ 187 ∷ 231 ∷ 187 ∷ 159 ∷ 231 ∷ 185 ∷ 129 ∷ 229 ∷ 191 ∷ 153 ∷ [])

module _ {ℓ κ} {S : Type ℓ} {D : Type κ} (world : World S D) where
  open world use {hash, md5}

  -- The answer of a queue, and the reply when it is full.
  pub or_reply : ClientContext → ℕ → Bytes → Bool × Server S D → Server S D
  or_reply ctx msg_type data_ (queued, sv) = if queued then sv else send ctx msg_type data_ sv

  pub identify : ClientContext → Bytes → Server S D → Server S D
  identify ctx body sv =
      let sender = extract_json_value body (codes "sender") in
      if is_empty sender then sv else bind_account hash sender ctx sv

  pub deliver : ClientContext → ℕ → Bytes → Bytes → Server S D → Server S D
  deliver ctx msg_id target enriched sv =
      if eqb target (codes "broadcast")
      then send ctx msg_type_ack (ack_body msg_id)
          (send_all (snapshot_all_clients sv.registry) 1 enriched sv)
      else (enqueue_redis_task
          (store_and_send ctx ctx.fd target (get_online_ctx hash target sv.registry) msg_id enriched
            (ack_body msg_id))
          sv).1

  -- A chat message; `none` while the clock gives no id.
  pub chat :
      ClientContext → Bytes × Bytes × Bytes → ℕ → List ℕ → Bytes → Server S D → Option (Server S D)
  unfolding deliver
  chat ctx (sender, target, content) now clock time sv = elim (next_id now clock sv.generator) [
    | none ↦ none
    | some (id, g) ↦ some (
        log_chat (sender, target, content)
          (deliver ctx id target
            (build_enriched_chat_body_with_msg_id id sender target content time)
            (record sv { generator = g })))
  ]

  log_in : ClientContext → Bytes → Server S D → Server S D
  unfolding or_reply
  log_in ctx body sv = or_reply ctx 5 (failed (codes "system_busy")) (
      enqueue_db_task
        (login ctx ctx.fd (extract_json_value body (codes "username"))
          (extract_json_value body (codes "password")))
        sv)

  acknowledge : ClientContext → Bytes → Server S D → Server S D
  acknowledge ctx body sv =
      let user = or_else (extract_json_value body (codes "user")) ctx.account_id in
      if is_empty user || is_empty (acked_ids body)
      then sv
      else (enqueue_redis_task (ack_messages user (acked_ids body)) sv).1

  ask_history : ClientContext → Bytes → Server S D → Server S D
  unfolding or_reply
  ask_history ctx body sv =
      let peer =
        or_else (extract_json_value body (codes "peer"))
          (extract_json_value body (codes "target")) in
      if is_empty ctx.account_id || is_empty peer
      then send ctx 8 (codes "[]") sv
      else or_reply ctx 8 (codes "[]") (
          enqueue_db_task
            (read_history ctx ctx.fd (extract_json_value body (codes "last_timestamp"))
              (build_session_id md5 ctx.account_id peer))
            sv)

  ask_friend : ClientContext → Bytes → Server S D → Server S D
  ask_friend ctx body sv =
      let friend_name = extract_json_value body (codes "friend") in
      if is_empty ctx.account_id
      then sv
      else if eqb friend_name ctx.account_id
      then send ctx 10 own_friend sv
      else let (queued, sv') =
          enqueue_db_task (add_friend ctx ctx.fd ctx.account_id friend_name) sv in
        if queued
        then sv'
        else if is_current_session_valid ctx ctx.fd
        then send ctx 10 system_busy sv'
        else sv'

  ask_friends : ClientContext → Server S D → Server S D
  unfolding or_reply
  ask_friends ctx sv =
      if is_empty ctx.account_id
      then sv
      else or_reply ctx 12 (codes "{\"friends\":[]}")
          (enqueue_redis_task (list_friends ctx ctx.fd ctx.account_id) sv)

  -- The clock reads `now` and, while it gives no id, `clock`; `time` is the time of day as a text.
  pub process_packet :
      ClientContext → ℕ → Bytes → ℕ → List ℕ → Bytes → Server S D → Option (Server S D)
  unfolding identify chat log_in acknowledge ask_history ask_friend ask_friends
  process_packet ctx msg_type body now clock time sv =
      if msg_type == 3
      then some (identify ctx body sv)
      else if msg_type == 1
      then chat ctx (chat_fields body) now clock time sv
      else if msg_type == 2
      then some (send ctx 2 [] sv)
      else if msg_type == 4
      then some (log_in ctx body sv)
      else if msg_type == msg_type_ack
      then some (acknowledge ctx body sv)
      else if msg_type == 7
      then some (ask_history ctx body sv)
      else if msg_type == 9
      then some (ask_friend ctx body sv)
      else if msg_type == 11
      then some (ask_friends ctx sv)
      else some sv
