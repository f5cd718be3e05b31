-- ===== src/ConnectionPool/Full.antt =====
-- A pool that `init` filled.
use linux.Base.{
  ℕ, zero, suc, ◌+◌, ◌≡◌, refl, sym, ◌∙◌, inl, inr, true, Option, some, [], ◌∷◌, ◌++◌, arith,
  Option-cases, length, length-append, true_ne_false,
}
use linux.ConnectionPool.{ConnectionPool, init, init_loop}

init_loop-full :
    (connect : ℕ → Option ℕ) (n i : ℕ) (p : ConnectionPool)
    → (init_loop connect n i p).0 ≡ true
    → length (init_loop connect n i p).1.connections ≡ length p.connections + n
unfolding init_loop
init_loop-full connect zero i p e = omega arith
init_loop-full connect (suc n) i p e = elim (Option-cases (connect i)) [
  | inl f ↦ absurd (true_ne_false (sym (rw (f, init_loop) at e)))
  | inr (conn, f) ↦
      rw (f, init_loop)
        (init_loop-full connect n (i + 1) (record p { connections = p.connections ++ conn ∷ [] })
            (rw (f, init_loop) at e)
          ∙ omega (arith, length-append p.connections (conn ∷ [])))
]

-- When `init` succeeds, the pool has as many connections more as it was to have.
pub init-full :
    (connect : ℕ → Option ℕ) (n : ℕ) (p : ConnectionPool)
    → (init connect n p).0 ≡ true
    → length (init connect n p).1.connections ≡ length p.connections + n
unfolding init
init-full connect n p e = init_loop-full connect n 0 p e

-- `init` succeeds when every attempt to connect does.
pub init_succeeds :
    (connect : ℕ → Option ℕ) (n : ℕ) (p : ConnectionPool)
    → ((i : ℕ) → (conn : ℕ) × (connect i ≡ some conn))
    → (init connect n p).0 ≡ true
unfolding init init_loop
init_succeeds connect n p all = go n 0 p
  where
    go : (n i : ℕ) (p : ConnectionPool) → (init_loop connect n i p).0 ≡ true
    go zero i p = refl
    go (suc n) i p =
        let (conn, e) = all i in
        rw (e, init_loop) (go n (i + 1) (record p { connections = p.connections ++ conn ∷ [] }))
