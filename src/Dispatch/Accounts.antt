-- ===== src/Dispatch/Accounts.antt =====
-- Which account a connection speaks for, and who may speak for an account.
use linux.Base.{
  ℕ, ◌≡◌, refl, sym, ap, ◌∙◌, true, false, some, List, [], ◌∷◌, ◌++◌, append-nil, append_assoc,
  Bytes, codes, is_empty,
}
use linux.Json.{extract_json_value}
use linux.Registry.{ClientContext, get_online_ctx}
use linux.Registry.Sessions.{is_current_session_valid_refl, get_online_ctx-assign_account}
use linux.Database.{check_login_from_database}
use linux.Friends.{get_friend_list_json}
use linux.Pending.{dispatch_due_messages_for_user}
use linux.Dispatch.State.{Server, World, Sent, login, send, send_each, bind_account}
use linux.Dispatch.Run.{
  run_task, run_login, welcome, send_friends, dispatch_all, send_if_valid, login_failed,
  login_succeeded,
}
use linux.Dispatch.{process_packet, identify}

-- The waiting messages of a connection.
unfoldable pub to_client : ClientContext → List Bytes → List Sent
to_client ctx [] = []
to_client ctx (msg ∷ msgs) = (ctx.serial, 1, msg) ∷ to_client ctx msgs

module _ {ℓ κ} {S : Type ℓ} {D : Type κ} where
  send_each-sent :
      (ctx : ClientContext) (msgs : List Bytes) (sv : Server S D)
      → ((send_each ctx msgs sv).sent ≡ sv.sent ++ to_client ctx msgs)
        × ((send_each ctx msgs sv).registry ≡ sv.registry)
  unfolding send_each to_client send
  send_each-sent ctx [] sv = (sym (append-nil sv.sent), refl)
  send_each-sent ctx (msg ∷ msgs) sv =
      let (went, same) = send_each-sent ctx msgs (send ctx 1 msg sv) in
      (went ∙ append_assoc sv.sent ((ctx.serial, 1, msg) ∷ []) (to_client ctx msgs), same)

  -- A packet of type 3 with a sender binds the connection to that account, whatever it is, at once: afterwards the
  -- account finds this connection, which the handler keeps alive. Neither the database nor Redis is asked, and no task is queued.
  pub process_packet-identify :
      (world : World S D) (ctx : ClientContext) (body : Bytes)
      → (now : ℕ) (clock : List ℕ) (time : Bytes) (sv : Server S D)
      → is_empty (extract_json_value body (codes "sender")) ≡ false
      → sv.registry.destroyed ctx.serial ≡ false
      → let sender = extract_json_value body (codes "sender") in
        (out : Server S D) × (process_packet world ctx 3 body now clock time sv ≡ some out)
        × (get_online_ctx world.hash sender out.registry
            ≡ some (record ctx { account_id = sender }))
        × (out.database ≡ sv.database)
        × (out.store ≡ sv.store)
        × (out.db_tasks ≡ sv.db_tasks)
        × (out.redis_tasks ≡ sv.redis_tasks)
  unfolding process_packet identify bind_account
  process_packet-identify world ctx body now clock time sv h alive =
      let sender = extract_json_value body (codes "sender") in
      (
        bind_account world.hash sender ctx sv,
        rw h refl,
        get_online_ctx-assign_account world.hash sender ctx sv.registry h alive,
        refl,
        refl,
        refl,
        refl,
      )

  -- A login task whose password the database does not confirm leaves the registry and Redis as they were, and
  -- sends the connection one failure.
  pub run_task-login_rejected :
      (world : World S D) (ctx : ClientContext) (user pass : Bytes) (now : ℕ) (clocks : Bytes → ℕ)
      (sv : Server S D)
      → (check_login_from_database world.client user pass sv.database).0 ≡ false
      → let out = run_task world now clocks (login ctx ctx.fd user pass) sv in
        (out.registry ≡ sv.registry)
        × (out.store ≡ sv.store)
        × (out.sent ≡ sv.sent ++ (ctx.serial, 5, login_failed) ∷ [])
  unfolding run_task run_login send_if_valid send
  run_task-login_rejected world ctx user pass now clocks sv h =
      simp (is_current_session_valid_refl, h) (refl, refl, refl)

  -- A login task whose password the database confirms binds the connection, which the task keeps alive, to the account, and sends it the
  -- success, then the friend list, then the messages that wait for the account.
  pub run_task-login_accepted :
      (world : World S D) (ctx : ClientContext) (user pass : Bytes) (now : ℕ) (clocks : Bytes → ℕ)
      (sv : Server S D)
      → is_empty user ≡ false
      → sv.registry.destroyed ctx.serial ≡ false
      → (check_login_from_database world.client user pass sv.database).0 ≡ true
      → let out = run_task world now clocks (login ctx ctx.fd user pass) sv in
        let (json, (s, d)) =
          get_friend_list_json world.redis world.client user sv.store
            (check_login_from_database world.client user pass sv.database).1 in
        let waiting = (dispatch_due_messages_for_user world.redis user true now clocks s).0 in
        (get_online_ctx world.hash user out.registry ≡ some (record ctx { account_id = user }))
        × (out.sent
            ≡ sv.sent
              ++ ((ctx.serial, 5, login_succeeded)
                  ∷ (ctx.serial, 12, json)
                  ∷ to_client ctx waiting))
  unfolding run_task run_login welcome send_friends dispatch_all send_if_valid send bind_account
  run_task-login_accepted world ctx user pass now clocks sv hu alive h =
      let f =
        get_friend_list_json world.redis world.client user sv.store
          (check_login_from_database world.client user pass sv.database).1 in
      let r = dispatch_due_messages_for_user world.redis user true now clocks f.1.0 in
      let success : Sent = (ctx.serial, 5, login_succeeded) in
      let friends : Sent = (ctx.serial, 12, f.0) in
      let bound = bind_account world.hash user ctx sv in
      let greeted = record bound {
        store = r.1;
        database = f.1.1;
        sent = (sv.sent ++ success ∷ []) ++ friends ∷ [];
      } in
      let (went, same) = send_each-sent ctx r.0 greeted in
      simp (is_current_session_valid_refl, h)
        (
          ap (get_online_ctx world.hash user) same
              ∙ get_online_ctx-assign_account world.hash user ctx sv.registry hu alive,
          went
              ∙ append_assoc (sv.sent ++ success ∷ []) (friends ∷ []) (to_client ctx r.0)
              ∙ append_assoc sv.sent (success ∷ []) (friends ∷ to_client ctx r.0),
        )
