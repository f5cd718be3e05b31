-- ===== src/ConnectionPool.antt =====
-- `DBConnectionPool` and `RedisConnectionPool`, which are the same on another kind of connection. A
-- connection is a number; `connect` says which of the attempts to connect succeed.
pub mod Balance
pub mod Full
use linux.Base.{
  ℕ, zero, suc, ◌+◌, ◌≡◌, Bool, true, false, Option, none, some, List, [], ◌∷◌, ◌++◌, ◌==◌,
  if◌then◌else◌,
}

pub record ConnectionPool : Type 0 where
  -- `m_connections`.
  pub connections : List ℕ
  -- What callers hold.
  pub handed_out : List ℕ
  pub closed : List ℕ

pub close_all : ConnectionPool → ConnectionPool
close_all p = record p { connections = []; closed = p.closed ++ p.connections }

module _ (connect : ℕ → Option ℕ) where
  -- The loop of `init`, with `i` rounds done and `left` to do.
  init_loop : ℕ → ℕ → ConnectionPool → Bool × ConnectionPool
  init_loop zero i p = (true, p)
  init_loop (suc left) i p = elim (connect i) [
    | none ↦ (false, close_all p)
    | some conn ↦ init_loop left (i + 1) (record p { connections = p.connections ++ conn ∷ [] })
  ]

  pub init : ℕ → ConnectionPool → Bool × ConnectionPool
  unfolding init_loop
  init pool_size p = init_loop pool_size 0 p

-- `getConnection`; `none` while it waits.
unfoldable pub get_connection : ConnectionPool → Option (ℕ × ConnectionPool)
get_connection p = elim p.connections [
  | [] ↦ none
  | conn ∷ rest ↦ some (conn, record p { connections = rest; handed_out = conn ∷ p.handed_out })
]

pub remove : ℕ → List ℕ → List ℕ
remove c [] = []
remove c (x ∷ xs) = let rest = remove c xs in if x == c then xs else x ∷ rest

-- The deleter of the pointer that `getConnection` returned.
pub release : ℕ → ConnectionPool → ConnectionPool
unfolding remove
release conn p = record p {
  connections = p.connections ++ conn ∷ [];
  handed_out = remove conn p.handed_out;
}

pub holds : ℕ → List ℕ → Bool
holds c [] = false
holds c (x ∷ xs) = if x == c then true else holds c xs

-- What callers do to the pool: a connection is released by one who holds it.
pub data Step : ConnectionPool → ConnectionPool → Type 0 where
  gets : {p q : ConnectionPool} (conn : ℕ) → get_connection p ≡ some (conn, q) → Step p q
  releases :
      {p : ConnectionPool} (conn : ℕ) → holds conn p.handed_out ≡ true → Step p (release conn p)

pub data Reachable (start : ConnectionPool) : ConnectionPool → Type 0 where
  starts : Reachable start start
  steps : {p q : ConnectionPool} → Reachable start p → Step p q → Reachable start q
