-- ===== src/Dispatch/Steps/Sound.antt =====
-- What holds of the server in every state that it can reach.
use linux.Base.{
  ℕ, refl, subst, Bool, not, Option, none, some, List, [], ◌∷◌, ◌++◌, Bytes, eqb, ◌==◌, codes,
  is_empty,
}
use linux.Json.{extract_json_value}
use linux.Texts.{build_enriched_chat_body_with_msg_id}
use linux.Database.{check_login_from_database, user_exists_in_db, add_friend_to_db}
use linux.Registry.{ClientContext, is_current_session_valid, get_online_ctx}
use linux.Registry.Placed.{IsPlaced-kept, destroy_context-IsPlaced}
use linux.Pending.{retry_round}
use linux.Snowflake.{Generator, next_id}
use linux.Tasks.Bound.{take_next-IsCounted, finish_task-IsCounted}
use linux.Dispatch.State.{
  Server, World, Task, store_and_send, login, ack_messages, read_history, add_friend, invalidate,
  list_friends, enqueue_db_task, log_chat, send_each,
}
use linux.Dispatch.Run.{
  login_failed, no_such_user, already_friends, send_history, login_succeeded, run_task,
  run_store_and_send, run_login, run_history, run_add_friend, send_friends, send_if_valid,
  send_to_target, welcome, dispatch_all,
}
use linux.Dispatch.Steps.{
  Step, connects, sends, takes_db, takes_redis, runs_db, runs_redis, disconnects, destroys, retries,
  swaps_log, flushes_log, is_some, send_batches, retry, Reachable, begins, then_step, finish_db,
  finish_redis,
}
use linux.Dispatch.{
  process_packet, identify, chat, deliver, log_in, acknowledge, ask_history, ask_friend,
  ask_friends, or_reply,
}
use linux.Dispatch.Steps.Kept.{
  IsSound, AllSome, none_sound, some_sound, kept_if, kept_some, same, send-IsSound,
  send_all-IsSound, send_each-IsSound, enqueue_db_task-IsSound, enqueue_redis_task-IsSound,
  bind_account-IsSound,
}

module _ {ℓ κ} {S : Type ℓ} {D : Type κ} (world : World S D) where
  or_reply-IsSound :
      (ctx : ClientContext) (t : ℕ) (b : Bytes) (r : Bool × Server S D)
      → IsSound r.1
      → IsSound (or_reply world ctx t b r)
  unfolding or_reply
  or_reply-IsSound ctx t b (queued, sv) s = kept_if queued s (send-IsSound ctx t b sv s)

  deliver-IsSound :
      (ctx : ClientContext) (id : ℕ) (target enriched : Bytes) (sv : Server S D)
      → IsSound sv
      → IsSound (deliver world ctx id target enriched sv)
  unfolding deliver
  deliver-IsSound ctx id target enriched sv s =
      kept_if (eqb target (codes "broadcast"))
        (send-IsSound ctx _ _ _ (send_all-IsSound _ 1 enriched sv s))
        (enqueue_redis_task-IsSound _ sv s)

  chat-AllSome :
      (ctx : ClientContext) (fields : Bytes × Bytes × Bytes) (now : ℕ) (clock : List ℕ)
      (time : Bytes) (sv : Server S D)
      → IsSound sv
      → AllSome (chat world ctx fields now clock time sv)
  unfolding chat log_chat
  chat-AllSome ctx (sender, target, content) now clock time sv s =
      given (next_id now clock sv.generator)
    where
      given :
          (o : Option (ℕ × Generator))
          → AllSome (elim o [
            | none ↦ none
            | some (id, g) ↦ some (
                log_chat
                  (sender, target, content)
                  (deliver world ctx id target
                    (build_enriched_chat_body_with_msg_id id sender target content time)
                    (record sv { generator = g })))
          ])
      given none = none_sound
      given (some (id, g)) = some_sound (
          same refl refl refl
            (deliver-IsSound ctx id target _ (record sv { generator = g }) (same refl refl refl s)))

  ask_friend-IsSound :
      (ctx : ClientContext) (body : Bytes) (sv : Server S D)
      → IsSound sv
      → IsSound (ask_friend world ctx body sv)
  unfolding ask_friend
  ask_friend-IsSound ctx body sv s =
      let task = add_friend ctx ctx.fd ctx.account_id (extract_json_value body (codes "friend")) in
      let queued = enqueue_db_task-IsSound task sv s in
      kept_if (is_empty ctx.account_id) s (
        kept_if (eqb (extract_json_value body (codes "friend")) ctx.account_id)
          (send-IsSound ctx _ _ sv s)
          (kept_if (enqueue_db_task task sv).0 queued
            (kept_if (is_current_session_valid ctx ctx.fd) (send-IsSound ctx _ _ _ queued) queued)))

  process_packet-AllSome :
      (ctx : ClientContext) (t : ℕ) (body : Bytes) (now : ℕ) (clock : List ℕ) (time : Bytes)
      (sv : Server S D)
      → IsSound sv
      → AllSome (process_packet world ctx t body now clock time sv)
  unfolding process_packet identify log_in acknowledge ask_history ask_friends
  process_packet-AllSome ctx t body now clock time sv s =
      kept_some (t == 3) (some_sound (kept_if _ s (bind_account-IsSound world.hash _ ctx sv s))) (
        kept_some (t == 1) (chat-AllSome ctx _ now clock time sv s) (
          kept_some (t == 2) (some_sound (send-IsSound ctx 2 [] sv s)) (
            kept_some (t == 4)
              (some_sound (or_reply-IsSound ctx _ _ _ (enqueue_db_task-IsSound _ sv s)))
              (kept_some (t == 13) (some_sound (kept_if _ s (enqueue_redis_task-IsSound _ sv s))) (
                kept_some (t == 7)
                  (some_sound (
                    kept_if _ (send-IsSound ctx _ _ sv s)
                      (or_reply-IsSound ctx _ _ _ (enqueue_db_task-IsSound _ sv s))))
                  (kept_some (t == 9) (some_sound (ask_friend-IsSound ctx body sv s)) (
                    kept_some (t == 11)
                      (some_sound (
                        kept_if _ s
                          (or_reply-IsSound ctx _ _ _ (enqueue_redis_task-IsSound _ sv s))))
                      (some_sound s))))))))

  send_if_valid-IsSound :
      (ctx : ClientContext) (fd t : ℕ) (b : Bytes) (sv : Server S D)
      → IsSound sv
      → IsSound (send_if_valid world ctx fd t b sv)
  unfolding send_if_valid
  send_if_valid-IsSound ctx fd t b sv s =
      kept_if (is_current_session_valid ctx fd) (send-IsSound ctx t b sv s) s

  send_to_target-IsSound :
      (o : Option ClientContext) (b : Bytes) (sv : Server S D)
      → IsSound sv
      → IsSound (send_to_target world o b sv)
  unfolding send_to_target
  send_to_target-IsSound none b sv s = s
  send_to_target-IsSound (some c) b sv s = send_if_valid-IsSound c c.fd 1 b sv s

  send_history-IsSound :
      (ctx : ClientContext) (fd : ℕ) (o : Option Bytes) (sv : Server S D)
      → IsSound sv
      → IsSound (send_history world ctx fd o sv)
  unfolding send_history
  send_history-IsSound ctx fd none sv s = s
  send_history-IsSound ctx fd (some b) sv s = send_if_valid-IsSound ctx fd 8 b sv s

  send_friends-IsSound :
      (ctx : ClientContext) (fd : ℕ) (user : Bytes) (sv : Server S D)
      → IsSound sv
      → IsSound (send_friends world ctx fd user sv)
  unfolding send_friends
  send_friends-IsSound ctx fd user sv s =
      send_if_valid-IsSound ctx fd 12 _ _ (same refl refl refl s)

  welcome-IsSound :
      (ctx : ClientContext) (fd : ℕ) (user : Bytes) (now : ℕ) (clocks : Bytes → ℕ) (sv : Server S D)
      → IsSound sv
      → IsSound (welcome world ctx fd user now clocks sv)
  unfolding welcome dispatch_all
  welcome-IsSound ctx fd user now clocks sv s =
      let greeted =
        send-IsSound ctx 5 login_succeeded _ (bind_account-IsSound world.hash user ctx sv s) in
      let valid = is_current_session_valid ctx fd in
      let listed = kept_if valid (send_friends-IsSound ctx fd user _ greeted) greeted in
      kept_if valid (send_each-IsSound ctx _ _ (same refl refl refl listed)) listed

  run_task-IsSound :
      (now : ℕ) (clocks : Bytes → ℕ) (task : Task) (sv : Server S D)
      → IsSound sv
      → IsSound (run_task world now clocks task sv)
  unfolding run_task run_store_and_send run_login run_history run_add_friend
  run_task-IsSound now clocks (store_and_send ctx fd target target_ctx id enriched ack) sv s =
      kept_if _
        (send_to_target-IsSound target_ctx enriched _
          (send_if_valid-IsSound ctx fd 13 ack _ (same refl refl refl s)))
        (same refl refl refl s)
  run_task-IsSound now clocks (login ctx fd user pass) sv s =
      let r = check_login_from_database world.client user pass sv.database in
      let sv' = record sv { database = r.1 } in
      let s' : IsSound sv' = same refl refl refl s in
      let valid = is_current_session_valid ctx fd in
      kept_if (not valid) s (
        kept_if (not r.0) (send_if_valid-IsSound ctx fd 5 login_failed sv' s')
          (kept_if (not valid) s' (welcome-IsSound ctx fd user now clocks sv' s')))
  run_task-IsSound now clocks (ack_messages user ids) sv s = same refl refl refl s
  run_task-IsSound now clocks (read_history ctx fd last_time session_id) sv s =
      send_history-IsSound ctx fd _ _ (same refl refl refl s)
  run_task-IsSound now clocks (add_friend ctx fd user friend_name) sv s =
      let exists = user_exists_in_db world.client friend_name sv.database in
      let added = add_friend_to_db world.client user friend_name exists.1 in
      let asked = record sv { database = exists.1 } in
      let tried = record sv { database = added.1 } in
      let asked_sound : IsSound asked = same refl refl refl s in
      let tried_sound : IsSound tried = same refl refl refl s in
      let success = codes "{\"result\":\"success\",\"friend\":\"" ++ (friend_name ++ codes "\"}") in
      kept_if (not exists.0) (send_if_valid-IsSound ctx fd 10 no_such_user asked asked_sound) (
        kept_if added.0
          (send_if_valid-IsSound ctx fd 10 success _
            (enqueue_redis_task-IsSound (invalidate user friend_name) tried tried_sound))
          (send_if_valid-IsSound ctx fd 10 already_friends tried tried_sound))
  run_task-IsSound now clocks (invalidate user friend_name) sv s = same refl refl refl s
  run_task-IsSound now clocks (list_friends ctx fd user) sv s =
      send_friends-IsSound ctx fd user sv s

  send_batches-IsSound :
      (batches : List (Bytes × List Bytes)) (sv : Server S D)
      → IsSound sv
      → IsSound (send_batches world batches sv)
  unfolding send_batches
  send_batches-IsSound [] sv s = s
  send_batches-IsSound ((user, msgs) ∷ batches) sv s =
      send_batches-IsSound batches _ (online (get_online_ctx world.hash user sv.registry))
    where
      online :
          (o : Option ClientContext)
          → IsSound (elim o [ none ↦ sv | some ctx ↦ send_each ctx msgs sv ])
      online none = s
      online (some ctx) = send_each-IsSound ctx msgs sv s

  Step-IsSound : {sv sv' : Server S D} → Step world sv sv' → IsSound sv → IsSound sv'
  unfolding finish_db finish_redis retry
  Step-IsSound (connects {sv = sv} ctx) s = record {
    placed = (IsPlaced-kept world.hash ctx 0 [] sv.registry s.placed).0;
    db_counted = s.db_counted;
    redis_counted = s.redis_counted;
  }
  Step-IsSound (sends {sv = sv} {out = out} ctx t body now clock time e) s =
      held (subst AllSome e (process_packet-AllSome ctx t body now clock time sv s))
    where
      held : {sv : Server S D} → AllSome (some sv) → IsSound sv
      held (some_sound s) = s
  Step-IsSound (takes_db {sv = sv}) s = record {
    placed = s.placed;
    db_counted = take_next-IsCounted sv.db_tasks s.db_counted;
    redis_counted = s.redis_counted;
  }
  Step-IsSound (takes_redis {sv = sv}) s = record {
    placed = s.placed;
    db_counted = s.db_counted;
    redis_counted = take_next-IsCounted sv.redis_tasks s.redis_counted;
  }
  Step-IsSound (runs_db {sv = sv} now clocks n task others e) s =
      let s' = run_task-IsSound now clocks task sv s in
      record {
        placed = s'.placed;
        db_counted =
            finish_task-IsCounted n (run_task world now clocks task sv).db_tasks s'.db_counted;
        redis_counted = s'.redis_counted;
      }
  Step-IsSound (runs_redis {sv = sv} now clocks n task others e) s =
      let s' = run_task-IsSound now clocks task sv s in
      record {
        placed = s'.placed;
        db_counted = s'.db_counted;
        redis_counted =
            finish_task-IsCounted n (run_task world now clocks task sv).redis_tasks
              s'.redis_counted;
      }
  Step-IsSound (disconnects {sv = sv} fd) s =
      let (_, _, _, _, ended) =
        IsPlaced-kept world.hash (record { serial = 0; fd = 0; account_id = [] }) fd [] sv.registry
          s.placed in
      record { placed = ended; db_counted = s.db_counted; redis_counted = s.redis_counted }
  Step-IsSound (destroys {sv = sv} serial free) s = record {
    placed = destroy_context-IsPlaced serial sv.registry s.placed;
    db_counted = s.db_counted;
    redis_counted = s.redis_counted;
  }
  Step-IsSound (retries {sv = sv} begun clocks) s =
      let online = λ (user : Bytes). is_some (get_online_ctx world.hash user sv.registry) in
      let r = retry_round world.redis online begun clocks sv.store in
      send_batches-IsSound r.0 (record sv { store = r.1 }) (same refl refl refl s)
  Step-IsSound swaps_log s = same refl refl refl s
  Step-IsSound (flushes_log inserted) s = same refl refl refl s

  -- In every state that the server reaches from a sound one, however connections, packets, workers that
  -- finish in any order, disconnections, contexts that are destroyed, rounds of the retry loop and of the chat log interleave, every client stands once in the shard of its descriptor, and both task queues
  -- are within their limit, with every accepted task waiting, running or finished.
  pub Reachable-IsSound :
      (first sv : Server S D) → IsSound first → Reachable world first sv → IsSound sv
  Reachable-IsSound first sv s begins = s
  Reachable-IsSound first sv s (then_step r step) =
      Step-IsSound step (Reachable-IsSound first _ s r)
