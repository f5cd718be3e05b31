-- ===== src/Reactor.antt =====
-- `handleAccept` and `SubReactor::addFd` of EpollChatServer.cpp: new connections go to the reactors in turn. What
-- `accept4` returns is a list of contexts; `epoll_ctl` enters the descriptor in `watched`.
pub mod Accept
pub mod Loop
pub mod Start
use linux.Base.{ℕ, ◌+◌, ◌%◌, List, [], ◌∷◌, ◌++◌, u64_mod, ◌==◌, if◌then◌else◌}
use linux.Registry.{ClientContext, Registry, add_client_ctx, remove_client_ctx}

pub record Reactors : Type 0 where
  pub next_sub_reactor : ℕ
  -- How many reactors `start` has made.
  pub count : ℕ
  -- The descriptors with the index of the reactor that waits for them.
  pub watched : List (ℕ × ℕ)
  pub closed : List ℕ
  pub registry : Registry

pub accept_one : ClientContext → Reactors → Reactors
accept_one ctx s =
    if s.count == 0
    then record s {
      registry = remove_client_ctx ctx.fd (add_client_ctx ctx s.registry);
      closed = s.closed ++ ctx.fd ∷ [];
    }
    else record s {
      registry = add_client_ctx ctx s.registry;
      next_sub_reactor = (s.next_sub_reactor + 1) % u64_mod;
      watched = s.watched ++ (s.next_sub_reactor % s.count, ctx.fd) ∷ [];
    }

-- The loop; the list ends where `accept4` fails.
pub handle_accept : List ClientContext → Reactors → Reactors
unfolding accept_one
handle_accept [] s = s
handle_accept (ctx ∷ ctxs) s = handle_accept ctxs (accept_one ctx s)
