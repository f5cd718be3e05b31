-- ===== src/Dispatch/Run.antt =====
-- What the queued closures of `processPacket` do when a worker runs them. The database and Redis are asked, and
-- packets sent, without another task in between.
use linux.Base.{ℕ, true, not, Option, none, some, [], ◌∷◌, ◌++◌, Bytes, if◌then◌else◌, codes}
use linux.Registry.{ClientContext, is_current_session_valid}
use linux.Database.{check_login_from_database, history, user_exists_in_db, add_friend_to_db}
use linux.Friends.{get_friend_list_json, invalidate_friend_list_cache}
use linux.Pending.{store_pending_message, ack_pending_message, dispatch_due_messages_for_user}
use linux.Dispatch.State.{
  Server, World, Task, store_and_send, login, ack_messages, read_history, add_friend, invalidate,
  list_friends, send, send_each, enqueue_redis_task, bind_account,
}

abbrev pub login_failed : Bytes
login_failed = codes "{\"result\":\"fail\"}"

abbrev pub login_succeeded : Bytes
login_succeeded = codes "{\"result\":\"success\"}"

abbrev failed : Bytes → Bytes
failed message = codes "{\"result\":\"fail\",\"message\":\"" ++ (message ++ codes "\"}")

abbrev pub no_such_user : Bytes
no_such_user =
    failed
      (231 ∷ 148 ∷ 168 ∷ 230 ∷ 136 ∷ 183 ∷ 228 ∷ 184 ∷ 141 ∷ 229 ∷ 173 ∷ 152 ∷ 229 ∷ 156 ∷ 168 ∷ [])

abbrev pub already_friends : Bytes
already_friends =
    failed
      (229 ∷ 183 ∷ 178 ∷ 231 ∷ 187 ∷ 143 ∷ 230 ∷ 152 ∷ 175 ∷ 229 ∷ 165 ∷ 189 ∷ 229 ∷ 143 ∷ 139 ∷ [])

module _ {ℓ κ} {S : Type ℓ} {D : Type κ} (world : World S D) where
  open world use {hash, redis, client}

  -- `if (isCurrentSessionValid(ctx, expectedFd)) sendPacket(…)`.
  unfoldable pub send_if_valid : ClientContext → ℕ → ℕ → Bytes → Server S D → Server S D
  send_if_valid ctx expected_fd msg_type data_ sv =
      if is_current_session_valid ctx expected_fd then send ctx msg_type data_ sv else sv

  unfoldable pub send_to_target : Option ClientContext → Bytes → Server S D → Server S D
  unfolding send_if_valid
  send_to_target none enriched sv = sv
  send_to_target (some target_ctx) enriched sv =
      send_if_valid target_ctx target_ctx.fd 1 enriched sv

  unfoldable pub run_store_and_send :
      ClientContext
      → ℕ
      → Bytes
      → Option ClientContext
      → ℕ
      → Bytes
      → Bytes
      → ℕ
      → Server S D
      → Server S D
  unfolding send_to_target
  run_store_and_send ctx expected_fd target target_ctx msg_id enriched ack now sv =
      let (stored, s) = store_pending_message redis target msg_id enriched now sv.store in
      let sv' = record sv { store = s } in
      if stored
      then send_to_target target_ctx enriched (send_if_valid ctx expected_fd 13 ack sv')
      else sv'

  unfoldable pub send_friends : ClientContext → ℕ → Bytes → Server S D → Server S D
  unfolding send_if_valid
  send_friends ctx expected_fd user sv =
      let (json, (s, d)) = get_friend_list_json redis client user sv.store sv.database in
      send_if_valid ctx expected_fd 12 json (record sv { store = s; database = d })

  -- `dispatchDueMessagesForUser(username, ctx, true)`.
  unfoldable pub dispatch_all : ClientContext → Bytes → ℕ → (Bytes → ℕ) → Server S D → Server S D
  dispatch_all ctx user now clocks sv =
      let (msgs, s) = dispatch_due_messages_for_user redis user true now clocks sv.store in
      send_each ctx msgs (record sv { store = s })

  unfoldable pub welcome : ClientContext → ℕ → Bytes → ℕ → (Bytes → ℕ) → Server S D → Server S D
  unfolding send_friends dispatch_all
  welcome ctx expected_fd user now clocks sv =
      let sv₁ = send ctx 5 login_succeeded (bind_account hash user ctx sv) in
      let sv₂ =
        if is_current_session_valid ctx expected_fd
        then send_friends ctx expected_fd user sv₁
        else sv₁ in
      if is_current_session_valid ctx expected_fd then dispatch_all ctx user now clocks sv₂ else sv₂

  unfoldable pub run_login :
      ClientContext → ℕ → Bytes → Bytes → ℕ → (Bytes → ℕ) → Server S D → Server S D
  unfolding welcome
  run_login ctx expected_fd user pass now clocks sv =
      let (ok, d) = check_login_from_database client user pass sv.database in
      let sv' = record sv { database = d } in
      if not (is_current_session_valid ctx expected_fd)
      then sv
      else if not ok
      then send_if_valid ctx expected_fd 5 login_failed sv'
      else if not (is_current_session_valid ctx expected_fd)
      then sv'
      else welcome ctx expected_fd user now clocks sv'

  unfoldable pub send_history : ClientContext → ℕ → Option Bytes → Server S D → Server S D
  unfolding send_if_valid
  send_history ctx expected_fd none sv = sv
  send_history ctx expected_fd (some json) sv = send_if_valid ctx expected_fd 8 json sv

  unfoldable pub run_history : ClientContext → ℕ → Bytes → Bytes → Server S D → Server S D
  unfolding send_history
  run_history ctx expected_fd last_time session_id sv =
      let (json, d) = history client session_id last_time sv.database in
      send_history ctx expected_fd json (record sv { database = d })

  unfoldable pub run_add_friend : ClientContext → ℕ → Bytes → Bytes → Server S D → Server S D
  unfolding send_if_valid
  run_add_friend ctx expected_fd user friend_name sv =
      let (exists, d) = user_exists_in_db client friend_name sv.database in
      let (added, d') = add_friend_to_db client user friend_name d in
      let sv' = record sv { database = d' } in
      let success = codes "{\"result\":\"success\",\"friend\":\"" ++ (friend_name ++ codes "\"}") in
      if not exists
      then send_if_valid ctx expected_fd 10 no_such_user (record sv { database = d })
      else if added
      then send_if_valid ctx expected_fd 10 success
          (enqueue_redis_task (invalidate user friend_name) sv').1
      else send_if_valid ctx expected_fd 10 already_friends sv'

  -- A task when a worker runs it; `now` and `clocks` are the readings of the clock.
  unfoldable pub run_task : ℕ → (Bytes → ℕ) → Task → Server S D → Server S D
  unfolding run_store_and_send run_login run_history run_add_friend send_friends
  run_task now clocks (store_and_send ctx fd target target_ctx id enriched ack) sv =
      run_store_and_send ctx fd target target_ctx id enriched ack now sv
  run_task now clocks (login ctx fd user pass) sv = run_login ctx fd user pass now clocks sv
  run_task now clocks (ack_messages user ids) sv = record sv {
    store = ack_pending_message redis user ids sv.store;
  }
  run_task now clocks (read_history ctx fd last_time session_id) sv =
      run_history ctx fd last_time session_id sv
  run_task now clocks (add_friend ctx fd user friend_name) sv =
      run_add_friend ctx fd user friend_name sv
  run_task now clocks (invalidate user friend_name) sv = record sv {
    store =
        invalidate_friend_list_cache redis friend_name
          (invalidate_friend_list_cache redis user sv.store);
  }
  run_task now clocks (list_friends ctx fd user) sv = send_friends ctx fd user sv
