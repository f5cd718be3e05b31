-- ===== src/Reactor/Accept.antt =====
-- How connections are spread over the reactors.
use linux.Base.{
  ℕ, ◌+◌, ◌%◌, ◌<◌, ◌≡◌, refl, sym, ◌∙◌, subst, ◌≢◌, false, some, List, [], ◌∷◌, ◌++◌, append-nil,
  append_assoc, arith, u64_mod, All, ◌==◌, length,
}
use linux.Registry.{ClientContext, get_client_ctx_by_fd, add_client_ctx}
use linux.Registry.Lookup.{get_client_ctx_by_fd-add_client_ctx}
use linux.Reactor.{Reactors, accept_one, handle_accept}

-- The connections from the `i`-th on, with their reactors.
unfoldable pub in_turn : ℕ → ℕ → List ClientContext → List (ℕ × ℕ)
in_turn k i [] = []
in_turn k i (ctx ∷ ctxs) = (i % k, ctx.fd) ∷ in_turn k (i + 1) ctxs

-- No descriptor of the list is the given one.
pub IsNew : ℕ → List ClientContext → Type 0
IsNew fd ctxs = All (λ c. fd ≢ c.fd) ctxs

still_found :
    (ctx : ClientContext) (ctxs : List ClientContext) (s : Reactors)
    → 0 < s.count
    → IsNew ctx.fd ctxs
    → get_client_ctx_by_fd ctx.fd s.registry ≡ some ctx
    → get_client_ctx_by_fd ctx.fd (handle_accept ctxs s).registry ≡ some ctx
unfolding handle_accept accept_one IsNew
still_found ctx [] s pos new h = h
still_found ctx (c ∷ ctxs) s pos (ne, new) h =
    let some_reactor : (s.count == 0) ≡ false = ground arith in
    rw (handle_accept, some_reactor)
      (still_found ctx ctxs
        (record s {
          registry = add_client_ctx c s.registry;
          next_sub_reactor = (s.next_sub_reactor + 1) % u64_mod;
          watched = s.watched ++ (s.next_sub_reactor % s.count, c.fd) ∷ [];
        })
        pos new ((get_client_ctx_by_fd-add_client_ctx c ctx.fd s.registry).1 ne ∙ h))

-- The kernel gives no descriptor twice, while it is open.
pub IsDistinct : List ClientContext → Type 0
IsDistinct [] = Unit
IsDistinct (c ∷ cs) = IsNew c.fd cs × IsDistinct cs

-- When there are reactors, every connection of a round of `accept4`, with a descriptor of its own, is found by
-- it afterwards.
pub handle_accept-found :
    (ctxs : List ClientContext) (s : Reactors)
    → 0 < s.count
    → IsDistinct ctxs
    → All (λ c. get_client_ctx_by_fd c.fd (handle_accept ctxs s).registry ≡ some c) ctxs
unfolding handle_accept accept_one IsDistinct
handle_accept-found [] s pos h = tt
handle_accept-found (ctx ∷ ctxs) s pos (new, rest) =
    let some_reactor : (s.count == 0) ≡ false = ground arith in
    let s' = record s {
      registry = add_client_ctx ctx s.registry;
      next_sub_reactor = (s.next_sub_reactor + 1) % u64_mod;
      watched = s.watched ++ (s.next_sub_reactor % s.count, ctx.fd) ∷ [];
    } in
    let step : accept_one ctx s ≡ s' = rw some_reactor refl in
    subst
      (λ t.
        All (λ c. get_client_ctx_by_fd c.fd (handle_accept ctxs t).registry ≡ some c) (ctx ∷ ctxs))
      (sym step)
      (
        still_found ctx ctxs s' pos new
            (get_client_ctx_by_fd-add_client_ctx ctx ctx.fd s.registry).0,
        handle_accept-found ctxs s' pos rest,
      )

-- When there are reactors, and their counter does not wrap, the new connections are watched by the reactors in
-- turn, each by one, behind those that were watched before; none is closed.
pub handle_accept-watched :
    (ctxs : List ClientContext) (s : Reactors)
    → 0 < s.count
    → s.next_sub_reactor + length ctxs < u64_mod
    → ((handle_accept ctxs s).watched ≡ s.watched ++ in_turn s.count s.next_sub_reactor ctxs)
      × ((handle_accept ctxs s).closed ≡ s.closed)
unfolding handle_accept accept_one in_turn
handle_accept-watched [] s pos h = (sym (append-nil s.watched), refl)
handle_accept-watched (ctx ∷ ctxs) s pos h =
    let some_reactor : (s.count == 0) ≡ false = ground arith in
    let word : (s.next_sub_reactor + 1) % u64_mod ≡ s.next_sub_reactor + 1 = omega (arith, h) in
    let here : ℕ × ℕ = (s.next_sub_reactor % s.count, ctx.fd) in
    let (later, open_) =
      handle_accept-watched ctxs
        (record s {
          registry = add_client_ctx ctx s.registry;
          next_sub_reactor = s.next_sub_reactor + 1;
          watched = s.watched ++ here ∷ [];
        })
        pos (omega (arith, h)) in
    rw (handle_accept, some_reactor, word)
      (
        later ∙ append_assoc s.watched (here ∷ []) (in_turn s.count (s.next_sub_reactor + 1) ctxs),
        open_,
      )
