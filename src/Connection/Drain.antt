-- ===== src/Connection/Drain.antt =====
-- What is queued goes out, as long as the kernel takes bytes and reports that the socket is writable.
use linux.Base.{
  ℕ, ◌+◌, ◌-◌, ◌*◌, ◌≤◌, min, max, ◌≡◌, refl, sym, ap, ◌∙◌, inl, inr, false, List, [], ◌∷◌, ◌++◌,
  append-nil, arith, All, ltb, ◌==◌, Bool-cases, length, length-append,
}
use linux.SendBuffer
use linux.SendBuffer.{remaining-current_data}
use linux.Connection.{
  Connection, Answer, accepts, would_block, fails, drained, load_active, took, flush_loop,
  handle_write, write_flush_budget_bytes,
}
use linux.Connection.Flow.{flow, IsSound, no_data, handle_write-flow}
use linux.Connection.Budget.{handle_write_budget}

-- `send` takes bytes, however few.
unfoldable pub Takes : Answer → Type 0
Takes (accepts n) = Unit
Takes would_block = ⊥
Takes fails = ⊥

-- A run in which the kernel takes bytes as often as the budget allows.
unfoldable pub IsWilling : List Answer → Type 0
IsWilling answers = All Takes answers × (write_flush_budget_bytes ≤ length answers)

-- The runs that the events of the reactor start, one after the other.
unfoldable pub handle_writes : List (List Answer) → Connection → Connection
handle_writes [] c = c
handle_writes (answers ∷ runs) c = handle_writes runs (handle_write answers c)

-- Rounds that all take bytes end the loop by its own tests.
flush_loop-drained :
    (answers : List Answer) (flushed : ℕ) (c : Connection)
    → All Takes answers
    → write_flush_budget_bytes ≤ flushed + length answers
    → (flush_loop answers flushed c).1 ≡ drained
unfolding flush_loop Takes
flush_loop-drained [] flushed c h long = rw (spent flushed (omega (arith, long))) refl
  where
    spent : (k : ℕ) → write_flush_budget_bytes ≤ k → ltb k write_flush_budget_bytes ≡ false
    spent k h = ground arith
flush_loop-drained (would_block ∷ answers) flushed c h long = absurd h.0
flush_loop-drained (fails ∷ answers) flushed c h long = absurd h.0
flush_loop-drained (accepts n ∷ answers) flushed c h long =
    elim (Bool-cases (ltb flushed write_flush_budget_bytes)) [
      | inl e ↦ elim (Bool-cases (SendBuffer.remaining (load_active c).active == 0)) [
        | inl f ↦ rw (e, f) refl
        | inr f ↦
            let sent = min (max 1 n) (
              min (SendBuffer.remaining (load_active c).active)
                (write_flush_budget_bytes - flushed)) in
            let one : 1 ≤ sent = ground arith in
            rw (e, f)
              (flush_loop-drained answers (flushed + sent) (took sent (load_active c)) h.1
                (omega (arith, long, one)))
      ]
      | inr e ↦ rw e refl
    ]

length-flow : (c : Connection) → IsSound c → length (flow c) ≡ length c.wire + c.pending_bytes
length-flow c s =
    let a = SendBuffer.current_data c.active in
    let p = SendBuffer.current_data c.pending in
    omega (
      arith,
      length-append c.wire (a ++ p),
      length-append a p,
      remaining-current_data c.active,
      remaining-current_data c.pending,
      s.counted,
    )

-- One willing run sends 64 KB or all that is queued.
handle_write-pending :
    (answers : List Answer) (c : Connection)
    → IsSound c
    → IsWilling answers
    → (handle_write answers c).pending_bytes ≤ c.pending_bytes - write_flush_budget_bytes
unfolding IsWilling
handle_write-pending answers c s (takes, long) =
    let c' = handle_write answers c in
    let (s', same) = handle_write-flow answers c s in
    let budget = handle_write_budget answers c in
    let lengths : length c'.wire + c'.pending_bytes ≡ length c.wire + c.pending_bytes =
      sym (length-flow c' s') ∙ ap length same ∙ length-flow c s in
    elim (budget.1 (flush_loop-drained answers 0 c takes (omega (arith, long)))) [
      | inl used ↦ omega (arith, used, lengths)
      | inr idle ↦ omega (arith, idle.0, idle.1, s'.counted)
    ]

-- Everything that is queued on a sound connection is sent, in its order: after as many runs of `handleWrite` as
-- there are 64 KB pieces, in each of which the kernel takes at least a byte whenever it is asked, the wire has
-- what was sent before, what was being sent and what was waiting, and nothing is queued.
pub handle_writes-sent :
    (runs : List (List Answer)) (c : Connection)
    → IsSound c
    → All IsWilling runs
    → c.pending_bytes ≤ write_flush_budget_bytes * length runs
    → ((handle_writes runs c).wire ≡ flow c) × ((handle_writes runs c).pending_bytes ≡ 0)
unfolding handle_writes
handle_writes-sent [] c s h few = (sym (nothing c s none), none)
  where
    none : c.pending_bytes ≡ 0
    none = omega (arith, few)

    nothing : (c : Connection) → IsSound c → c.pending_bytes ≡ 0 → flow c ≡ c.wire
    nothing c s z =
        rw
          (
            no_data c.active (omega (arith, z, s.counted)),
            no_data c.pending (omega (arith, z, s.counted)),
          )
          (append-nil c.wire)
handle_writes-sent (answers ∷ runs) c s (willing, rest) few =
    let (s', same) = handle_write-flow answers c s in
    let less = handle_write-pending answers c s willing in
    let (sent, idle) =
      handle_writes-sent runs (handle_write answers c) s' rest (omega (arith, less, few)) in
    (sent ∙ same, idle)
