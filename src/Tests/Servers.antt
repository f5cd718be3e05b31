-- ===== src/Tests/Servers.antt =====
-- The registry, new connections and the whole server at concrete states.
use linux.Registry.{ClientContext, get_client_ctx_by_fd, handle_disconnect, add_client_ctx}
use linux.Registry.Lookup.{get_client_ctx_by_fd-add_client_ctx}
use linux.Reactor.Loop.{Event, run_event, get_client_ctx_by_fd-run_event}
use linux.Reactor.{handle_accept}
use linux.Reactor.Accept.{in_turn}
use linux.Reactor.Start.{System, start as start_server, reactors}
use linux.Reactor.Start.Running.{IsRunning, start_runs, start-handle_accept}
use linux.Registry.Directory.{
  Change, adds, assigns, sets_online, disconnects, destroys, Agrees, change_all, changed_all,
  empty_directory,
}
use linux.Registry.Directory.Refine.{empty-Agrees, change_all-Agrees}
use linux.Base.{ℕ, ◌≡◌, refl, true, false, none, some, List, [], ◌∷◌, arith, length, codes}
use linux.Registry.Placed.{empty_registry, empty_registry-IsPlaced, IsPlaced-kept}
use linux.Tasks.{init, start, take_next, starts}
use linux.Tasks.Bound.{Reachable-IsCounted}
use linux.Dispatch.Steps.{begins, then_step, connects, sends, takes_redis}
use linux.Dispatch.Steps.Kept.{IsSound}
use linux.Dispatch.Steps.Sound.{Reachable-IsSound}
use linux.Pending.Toy.{Memory}
use linux.Dispatch.State.{Server, log_chat}
use linux.Dispatch.{deliver}
use linux.Texts.{build_enriched_chat_body_with_msg_id}
use linux.Dispatch.Chat.{process_packet-deliver}
use linux.Tests.Sample.{alice, visitor, world, server, issued, first_id, first, chat_body, to_bob}

abbrev bob : ClientContext
bob = record { serial = 2; fd = 10; account_id = [] }

server-IsSound : IsSound server
server-IsSound = record {
  placed = (IsPlaced-kept length visitor 9 alice empty_registry empty_registry-IsPlaced).0;
  db_counted = Reachable-IsCounted 0 (start (init 0)) starts;
  redis_counted = Reachable-IsCounted 0 (start (init 0)) starts;
}

-- Bob connects, the visitor writes to him, and a worker takes the task.
abbrev with_bob : Server Memory ℕ
with_bob = record server { registry = add_client_ctx bob server.registry }

abbrev written : Server Memory ℕ
written =
    log_chat (alice, b'b' ∷ [], codes "hi")
      (deliver world visitor first_id (b'b' ∷ [])
        (build_enriched_chat_body_with_msg_id first_id alice (b'b' ∷ []) (codes "hi") [])
        (record with_bob { generator = issued }))

Reachable-IsSound_example : IsSound (record written { redis_tasks = take_next written.redis_tasks })
Reachable-IsSound_example =
    Reachable-IsSound world server (record written { redis_tasks = take_next written.redis_tasks })
      server-IsSound
      (then_step
        (then_step (then_step begins (connects bob)) (
          sends visitor 1 (chat_body (b'b' ∷ [])) 1704067200001 [] [] (
            process_packet-deliver world visitor (chat_body (b'b' ∷ [])) alice (b'b' ∷ [])
              (codes "hi") 1704067200001 [] [] with_bob first_id issued to_bob first)))
        takes_redis)

abbrev a_login : List Change
a_login =
    adds (record { serial = 1; fd = 9; account_id = [] })
    ∷ assigns 1 (b'a' ∷ [])
    ∷ sets_online (b'a' ∷ []) (record { serial = 1; fd = 9; account_id = b'a' ∷ [] })
    ∷ disconnects 9
    ∷ destroys 1
    ∷ []

change_all-Agrees_example :
    Agrees length (change_all length a_login empty_registry) (changed_all a_login empty_directory)
change_all-Agrees_example =
    change_all-Agrees length a_login empty_registry empty_directory (empty-Agrees length)

abbrev healthy : System
healthy = record {
  socket = true;
  bind = true;
  listen = true;
  mysql = λ i. some i;
  redis = λ i. some i;
  redis_pool_size = none;
  epoll = true;
  hardware_concurrency = 8;
  reactor_epoll = λ i. true;
}

start-handle_accept_example :
    let s = (start_server healthy).1 in
    let ctxs : List ClientContext = record { serial = 1; fd = 9; account_id = [] } ∷ [] in
    IsRunning none s
    × ((handle_accept ctxs (reactors empty_registry s)).watched ≡ in_turn s.sub_reactors 0 ctxs)
    × ((handle_accept ctxs (reactors empty_registry s)).closed ≡ [])
start-handle_accept_example =
    start-handle_accept healthy empty_registry (record { serial = 1; fd = 9; account_id = [] } ∷ [])
      (start_runs healthy refl (λ i. (i, refl)) (λ i. (i, refl)) refl (λ i. refl)) (omega arith)

-- The reader finds the connection closed, and a stranger is accepted on its descriptor.
abbrev hung_up : Event
hung_up = record { fd = 9; readable = true; writable = false; gone = true }

abbrev stranger : ClientContext
stranger = record { serial = 2; fd = 9; account_id = [] }

get_client_ctx_by_fd-run_event_example :
    get_client_ctx_by_fd 9 (
      run_event length
        (λ ctx r. handle_disconnect length ctx.fd r)
        (λ ctx r. r)
        (add_client_ctx stranger)
        hung_up
        (add_client_ctx visitor empty_registry))
    ≡ none
get_client_ctx_by_fd-run_event_example =
    get_client_ctx_by_fd-run_event length (λ ctx r. handle_disconnect length ctx.fd r) (λ ctx r. r)
      (add_client_ctx stranger) hung_up visitor (add_client_ctx visitor empty_registry)
      (omega arith) refl (get_client_ctx_by_fd-add_client_ctx visitor 9 empty_registry).0
