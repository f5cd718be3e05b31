-- ===== src/Tests/Queues.antt =====
-- The connection pools and the chat log at concrete states.
use linux.Base.{
  ℕ, ◌+◌, ◌≡◌, refl, Bool, true, Option, none, some, [], ◌∷◌, ◌++◌, ltb, if◌then◌else◌,
}
use linux.ConnectionPool.{ConnectionPool, get_connection, starts, steps, gets}
use linux.ConnectionPool.Balance.{total, Reachable-total}
use linux.ChatLog.{ChatLog, final_round}
use linux.ChatLog.Order.{count, final_round-writes}

abbrev two_left : ConnectionPool
two_left = record { connections = 1 ∷ 2 ∷ []; handed_out = []; closed = [] }

abbrev one_left : ConnectionPool
one_left = record { connections = 2 ∷ []; handed_out = 1 ∷ []; closed = [] }

first_taken : get_connection two_left ≡ some (1, one_left)
unfolding get_connection
first_taken = refl

Reachable-total_example : total one_left ≡ total two_left
Reachable-total_example = Reachable-total two_left one_left (steps starts (gets 1 first_taken))

-- The third attempt fails.
abbrev connect_twice : ℕ → Option ℕ
connect_twice i = if ltb i 2 then some i else none

abbrev no_connections : ConnectionPool
no_connections = record { connections = []; handed_out = []; closed = [] }

abbrev two_waiting : ChatLog ℕ
two_waiting = record {
  active_queue = 7 ∷ 8 ∷ [];
  flush_queue = [];
  queue_depth = 2;
  dropped = 0;
  written = 6 ∷ [];
  lost = [];
}

-- The database takes every batch.
abbrev always : ℕ → Bool
always n = true

final_round-writes_example :
    let s' = final_round always two_waiting in
    (s'.flush_queue ≡ [])
    × (s'.active_queue ≡ [])
    × (s'.queue_depth ≡ 0)
    × ((p : ℕ → Bool)
        → count p s'.written + count p s'.lost
          ≡ (count p (6 ∷ []) + count p []) + count p (7 ∷ 8 ∷ []))
    × (((n : ℕ) → ◌≡◌ {A = Bool} true true)
        → (s'.written ≡ (6 ∷ []) ++ (7 ∷ 8 ∷ [])) × (s'.lost ≡ []))
final_round-writes_example = final_round-writes always two_waiting refl refl
