-- ===== src/ConnectionPool/Balance.antt =====
-- No connection is lost or made while callers use the pool, and `init` fills it or leaves nothing open.
use linux.Base.{
  ℕ, zero, suc, ◌+◌, ◌≤◌, ◌<◌, ◌≡◌, refl, sym, ap, ◌∙◌, ◌⊎◌, inl, inr, Bool, true, false, Option,
  none, some, List, [], ◌∷◌, ◌++◌, arith, Option-cases, length, length-append,
}
use linux.ConnectionPool.{
  ConnectionPool, close_all, init_loop, init, get_connection, remove, release, holds, Step, gets,
  releases, Reachable, starts, steps,
}

-- The number of connections that wait and of those that are held.
abbrev pub total : ConnectionPool → ℕ
total p = length p.connections + length p.handed_out

length-remove : (c : ℕ) (xs : List ℕ) → holds c xs ≡ true → length (remove c xs) + 1 ≡ length xs
unfolding remove holds
length-remove c [] h = cc
length-remove c (x ∷ xs) h = ground (arith, length-remove c xs)

get_connection-total :
    (p q : ConnectionPool) (conn : ℕ) → get_connection p ≡ some (conn, q) → total q ≡ total p
unfolding get_connection
get_connection-total p q conn e = waiting p.connections refl e
  where
    waiting :
        (cs : List ℕ) → p.connections ≡ cs → get_connection p ≡ some (conn, q) → total q ≡ total p
    waiting [] f = rw (get_connection, f) (λ g. cc)
    waiting (c ∷ rest) f =
        rw (get_connection, f)
          (λ g.
            let same : ◌≡◌ {A = ConnectionPool}
                (record p { connections = rest; handed_out = c ∷ p.handed_out }) q =
              cc in
            sym (ap total same) ∙ omega (arith, ap length f))

release-total :
    (p : ConnectionPool) (conn : ℕ)
    → holds conn p.handed_out ≡ true
    → total (release conn p) ≡ total p
unfolding release
release-total p conn h =
    omega (arith, length-append p.connections (conn ∷ []), length-remove conn p.handed_out h)

-- However callers take and return connections, the pool and its callers together have as many as at first.
pub Reachable-total : (start p : ConnectionPool) → Reachable start p → total p ≡ total start
Reachable-total start p starts = refl
Reachable-total start p (steps r s) = after s ∙ Reachable-total start _ r
  where
    after : {p q : ConnectionPool} → Step p q → total q ≡ total p
    after (gets {p = p} {q = q} conn e) = get_connection-total p q conn e
    after (releases {p = p} conn h) = release-total p conn h

module _ (connect : ℕ → Option ℕ) where
  -- `left` attempts from `i` on have all succeeded, or one has failed and nothing is left open.
  abbrev pub Filled : ℕ → ℕ → ConnectionPool → Bool × ConnectionPool → Type 0
  Filled left i p (ok, q) =
      ((ok ≡ true) × (length q.connections ≡ length p.connections + left) × (q.closed ≡ p.closed))
      ⊎ ((ok ≡ false)
          × (q.connections ≡ [])
          × ((j : ℕ) × (i ≤ j) × (j < i + left) × (connect j ≡ none)))

  init_loop-Filled :
      (left i : ℕ) (p : ConnectionPool) → Filled left i p (init_loop connect left i p)
  unfolding init_loop close_all
  init_loop-Filled zero i p = inl (refl, omega arith, refl)
  init_loop-Filled (suc left) i p = elim (Option-cases (connect i)) [
    | inl e ↦ rw (init_loop, e) (inr (refl, refl, (i, omega arith, omega arith, e)))
    | inr (c, e) ↦
        rw (init_loop, e)
          (more c
            (init_loop connect left (i + 1) (record p { connections = p.connections ++ c ∷ [] }))
            (init_loop-Filled left (i + 1) (record p { connections = p.connections ++ c ∷ [] })))
  ]
    where
      more :
          (c : ℕ) (r : Bool × ConnectionPool)
          → Filled left (i + 1) (record p { connections = p.connections ++ c ∷ [] }) r
          → Filled (suc left) i p r
      more c (_, _) (inl (ok, len, same)) =
          inl (ok, omega (arith, len, length-append p.connections (c ∷ [])), same)
      more c (_, _) (inr (ok, none_left, (j, lo, hi, failed))) =
          inr (ok, none_left, (j, omega arith, omega arith, failed))

  -- `init` either connects as often as configured and keeps every connection, or meets an attempt that
  -- fails, answers `false` and leaves no connection in the pool.
  pub init-Filled :
      (pool_size : ℕ) (p : ConnectionPool) → Filled pool_size 0 p (init connect pool_size p)
  unfolding init
  init-Filled pool_size p = init_loop-Filled pool_size 0 p
