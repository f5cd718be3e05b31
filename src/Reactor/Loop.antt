-- ===== src/Reactor/Loop.antt =====
-- A round of `SubReactor::run`: what the events that `epoll_wait` returned do to the registry. What `handleRead` and
-- `handleWrite` do to it, and what the other threads do meanwhile, are parameters.
use linux.Base.{
  ℕ, ◌≡◌, ◌≢◌, Bool, true, false, none, some, List, [], ◌∷◌, arith, Bytes, ◌==◌, if◌then◌else◌,
}
use linux.Registry.{ClientContext, Registry, get_client_ctx_by_fd, handle_disconnect}
use linux.Registry.Lookup.{get_client_ctx_by_fd-handle_disconnect}

-- A descriptor with `EPOLLIN`, `EPOLLOUT`, and `EPOLLERR` or `EPOLLHUP`.
pub record Event : Type 0 where
  pub fd : ℕ
  pub readable : Bool
  pub writable : Bool
  pub gone : Bool

module _ (hash : Bytes → ℕ) (read write : ClientContext → Registry → Registry)
    (others : Registry → Registry) where
  -- The calls for a context, with the other threads running between them.
  handle : Event → ClientContext → Registry → Registry
  handle e ctx r =
      let r₁ = others (if e.readable then read ctx r else r) in
      let r₂ = others (if e.writable then write ctx r₁ else r₁) in
      if e.gone then handle_disconnect hash e.fd r₂ else r₂

  pub run_event : Event → Registry → Registry
  unfolding handle
  run_event e r =
      if e.fd == 0
      then r
      else elim (get_client_ctx_by_fd e.fd r) [ none ↦ r | some ctx ↦ handle e ctx r ]

  pub run_events : List Event → Registry → Registry
  unfolding run_event
  run_events [] r = r
  run_events (e ∷ es) r = run_events es (run_event e r)

  -- An event with `EPOLLERR` or `EPOLLHUP` on a descriptor that finds a client when the event is looked at: after it the
  -- descriptor finds nothing, also when `handleRead` had closed it and another thread has accepted a new client on it
  -- since.
  pub get_client_ctx_by_fd-run_event :
      (e : Event) (ctx : ClientContext) (r : Registry)
      → e.fd ≢ 0
      → e.gone ≡ true
      → get_client_ctx_by_fd e.fd r ≡ some ctx
      → get_client_ctx_by_fd e.fd (run_event e r) ≡ none
  unfolding run_event handle
  get_client_ctx_by_fd-run_event e ctx r pos gone h =
      let known : (e.fd == 0) ≡ false = ground arith in
      let r₁ = others (if e.readable then read ctx r else r) in
      let r₂ = others (if e.writable then write ctx r₁ else r₁) in
      rw (run_event, known, h, handle, gone) (get_client_ctx_by_fd-handle_disconnect hash e.fd r₂)
