-- ===== src/Tests/Requests.antt =====
-- Requests at a concrete server.
use linux.Base.{
  ℕ, ◌+◌, ◌<◌, ◌≡◌, refl, true, false, ◌&&◌, some, List, [], ◌∷◌, ◌++◌, arith, Bytes, eqb,
  if◌then◌else◌, length, codes, is_empty,
}
use linux.Decimal.{to_string}
use linux.Json.{
  extract_json_value, find, value_from, take_while, skip_while, extract_json_string_fast, scan_key,
  colon, open_quote, scan_value, is_blank,
}
use linux.Registry.{ClientContext, add_client_ctx, get_client_ctx_by_fd, get_online_ctx}
use linux.Registry.Placed.{empty_registry, empty_registry-IsPlaced, IsPlaced-kept}
use linux.Registry.Placed.Once.{of_fd, at_most_one}
use linux.Tasks.{init, start, take_next, taken_out, worker_queue_limit}
use linux.Pending.Commands.{Redis}
use linux.Database.{check_login_from_database, password_matches, fits}
use linux.Friends.{get_friend_list_json}
use linux.Texts.{build_enriched_chat_body_with_msg_id}
use linux.Pending.Toy.{Memory, toy, toy-Laws, empty_memory}
use linux.Pending.{retry_delay_ms, dispatch_due_messages_for_user, store_pending_message}
use linux.Pending.Store.{entry}
use linux.Dispatch.State.{Server, login}
use linux.Dispatch.Run.{run_task, login_succeeded}
use linux.Dispatch.Broadcast.{addressed, process_packet-broadcast}
use linux.Dispatch.Private.{delivery, to_target, run_task-delivery}
use linux.Dispatch.Steps.{finish_redis}
use linux.Dispatch.Steps.Delivered.{process_packet-delivered}
use linux.Dispatch.Accounts.{to_client, process_packet-identify, run_task-login_accepted}
use linux.Dispatch.{parse_chat_fields_fast, process_packet, chat_fields, ack_body}
use linux.Tests.Sample.{
  alice, visitor, open_door, world, server, issued, first_id, first, chat_body, to_bob,
  not_broadcast,
}

abbrev sender_body : Bytes
sender_body = codes "{\"sender\":\"a\"}"

named_sender : is_empty (extract_json_value sender_body (codes "sender")) ≡ false
unfolding extract_json_value find value_from take_while skip_while eqb
named_sender = refl

visitor_lives : server.registry.destroyed visitor.serial ≡ false
unfolding add_client_ctx
visitor_lives = refl

process_packet-identify_example :
    let sender = extract_json_value sender_body (codes "sender") in
    (out : Server Memory ℕ) × (process_packet world visitor 3 sender_body 0 [] [] server ≡ some out)
    × (get_online_ctx length sender out.registry ≡ some (record visitor { account_id = sender }))
    × (out.database ≡ 0)
    × (◌≡◌ {A = Memory} out.store empty_memory)
    × (out.db_tasks ≡ server.db_tasks)
    × (out.redis_tasks ≡ server.redis_tasks)
process_packet-identify_example =
    process_packet-identify world visitor sender_body 0 [] [] server named_sender visitor_lives

run_task-delivery_example :
    let out =
      run_task world 1000 (λ m. 1000) (delivery visitor alice (some visitor) 7 alice) server in
    (out.sent ≡ [] ++ ((1, 13, ack_body 7) ∷ to_target (some visitor) alice))
    × ((u i : Bytes)
        → entry (toy []) (toy-Laws []) u i out.store ≡ (
            if eqb alice u && eqb (to_string 7) i
            then (some alice, some (1000 + retry_delay_ms), some (to_string 0))
            else entry (toy []) (toy-Laws []) u i empty_memory))
    × ((r : Redis Memory)
        → (run_task
            (record world { redis = r })
            1000
            (λ m. 1000)
            (delivery visitor alice (some visitor) 7 alice)
            server).sent
          ≡ (if (store_pending_message r alice 7 alice 1000 empty_memory).0
              then [] ++ ((1, 13, ack_body 7) ∷ to_target (some visitor) alice)
              else []))
run_task-delivery_example =
    run_task-delivery world (toy-Laws []) visitor alice alice (some visitor) 7 1000 (λ m. 1000)
      server refl refl (omega arith)

door_opens : (check_login_from_database open_door alice (b'p' ∷ []) 0).0 ≡ true
unfolding check_login_from_database password_matches fits eqb
door_opens = refl

run_task-login_accepted_example :
    let out = run_task world 1000 (λ m. 1000) (login visitor 9 alice (b'p' ∷ [])) server in
    let (json, (s, d)) =
      get_friend_list_json
        (toy [])
        open_door
        alice
        empty_memory
        (check_login_from_database open_door alice (b'p' ∷ []) 0).1 in
    let waiting = (dispatch_due_messages_for_user (toy []) alice true 1000 (λ m. 1000) s).0 in
    (get_online_ctx length alice out.registry ≡ some (record visitor { account_id = alice }))
    × (out.sent ≡ [] ++ ((1, 5, login_succeeded) ∷ (1, 12, json) ∷ to_client visitor waiting))
run_task-login_accepted_example =
    run_task-login_accepted world visitor alice (b'p' ∷ []) 1000 (λ m. 1000) server refl
      visitor_lives door_opens

to_all : chat_fields (chat_body (codes "broadcast")) ≡ (alice, codes "broadcast", codes "hi")
unfolding chat_fields parse_chat_fields_fast extract_json_string_fast scan_key colon open_quote
    scan_value is_blank skip_while eqb
to_all = refl

process_packet-broadcast_example :
    let enriched =
      build_enriched_chat_body_with_msg_id first_id alice (codes "broadcast") (codes "hi") [] in
    (out : Server Memory ℕ) × (ctxs : List ClientContext) × (process_packet world visitor 1
        (chat_body (codes "broadcast"))
        1704067200001
        []
        []
        server
      ≡ some out)
    × (out.sent ≡ [] ++ (addressed 1 enriched ctxs ++ (1, 13, ack_body first_id) ∷ []))
    × ((fd : ℕ) → of_fd fd ctxs ≡ at_most_one (get_client_ctx_by_fd fd server.registry))
process_packet-broadcast_example =
    process_packet-broadcast world visitor (chat_body (codes "broadcast")) alice (codes "hi")
      1704067200001 [] [] server first_id issued
      (IsPlaced-kept length visitor 9 alice empty_registry empty_registry-IsPlaced).0 to_all first

queue_has_room : server.redis_tasks.depth < worker_queue_limit
unfolding start init
queue_has_room = omega arith

queue_is_idle : server.redis_tasks.pool.tasks ≡ []
unfolding start init
queue_is_idle = refl

process_packet-delivered_example :
    let enriched =
      build_enriched_chat_body_with_msg_id first_id alice (b'b' ∷ []) (codes "hi") [] in
    let target_ctx = get_online_ctx length (b'b' ∷ []) server.registry in
    let task = delivery visitor (b'b' ∷ []) target_ctx first_id enriched in
    (queued : Server Memory ℕ) × (process_packet world visitor 1
        (chat_body (b'b' ∷ []))
        1704067200001
        []
        []
        server
      ≡ some queued)
    × (queued.sent ≡ [])
    × (let taken = record queued { redis_tasks = take_next queued.redis_tasks } in
        let out = finish_redis world 1000 (λ m. 1000) 0 task taken in
        (taken_out 0 taken.redis_tasks.pool.running ≡ some (task, server.redis_tasks.pool.running))
        × (out.sent ≡ [] ++ ((1, 13, ack_body first_id) ∷ to_target target_ctx enriched))
        × ((u i : Bytes)
            → entry (toy []) (toy-Laws []) u i out.store ≡ (
                if eqb (b'b' ∷ []) u && eqb (to_string first_id) i
                then (some enriched, some (1000 + retry_delay_ms), some (to_string 0))
                else entry (toy []) (toy-Laws []) u i empty_memory)))
process_packet-delivered_example =
    process_packet-delivered world (toy-Laws []) visitor (chat_body (b'b' ∷ [])) alice (b'b' ∷ [])
      (codes "hi") 1704067200001 [] [] server first_id issued 1000 (λ m. 1000) to_bob not_broadcast
      first refl (omega arith) queue_has_room queue_is_idle

abbrev foreign_ack : Bytes
foreign_ack = codes "{\"user\":\"b\",\"msg_id\":\"7\"}"
