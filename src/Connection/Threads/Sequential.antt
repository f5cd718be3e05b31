-- ===== src/Connection/Threads/Sequential.antt =====
-- The functions that run from start to end are runs of the steps that nothing comes between.
use linux.Base.{
  ℕ, ◌+◌, ◌-◌, ◌%◌, ◌^◌, ◌<◌, min, max, ◌≡◌, refl, inl, inr, true, ◌&&◌, List, [], ◌∷◌, arith,
  Bytes, u64_mod, ltb, ◌==◌, Bool-cases, length,
}
use linux.SendBuffer
use linux.Connection.{
  Connection, Answer, accepts, would_block, fails, Ending, drained, blocked, broken, load_active,
  took, flush_loop, finish_write, handle_write, send_packet, arm, max_pending_send_buffer,
  write_flush_budget_bytes,
}
use linux.Connection.Threads.{
  Writer, waiting, looping, sending, finishing, Shared, total_length, is_full, put, enqueue, enable,
  load, call, commit, conclude, step_at, advance, sends, enables, starts, advances, Steps, none_yet,
  then_one,
}

abbrev pub at : Connection → Writer → ℕ → Bytes → Shared
at c w n queued = record { connection = c; writer = w; enabling = n; queued = queued }

Steps-finish :
    {first : Shared} (c : Connection) (n : ℕ) (queued : Bytes)
    → Steps first (at c finishing n queued)
    → Steps first (at (finish_write (c, drained)) waiting n queued)
unfolding finish_write advance step_at conclude
Steps-finish {first} c n queued ss =
    elim (Bool-cases (SendBuffer.remaining c.active == 0 && SendBuffer.remaining c.pending == 0)) [
      | inl e ↦
          rw e (then_one (rw e at (then_one ss (advances would_block))) (advances would_block))
      | inr e ↦ rw e (rw e at (then_one ss (advances would_block)))
    ]

-- The first section of a round, as the next step.
Steps-load :
    {first : Shared} (flushed : ℕ) (c : Connection) (n : ℕ) (queued : Bytes)
    → Steps first (at c (looping flushed) n queued)
    → Steps first (load flushed (at c (looping flushed) n queued))
unfolding advance step_at
Steps-load flushed c n queued ss = then_one ss (advances would_block)

Steps-flush_loop :
    {first : Shared} (answers : List Answer) (flushed : ℕ) (c : Connection) (n : ℕ) (queued : Bytes)
    → Steps first (at c (looping flushed) n queued)
    → Steps first (at (finish_write (flush_loop answers flushed c)) waiting n queued)
unfolding flush_loop finish_write load advance step_at call commit took
Steps-flush_loop {first} [] flushed c n queued ss =
    let one = Steps-load flushed c n queued ss in
    elim (Bool-cases (ltb flushed write_flush_budget_bytes)) [
      | inl e ↦ elim (Bool-cases (SendBuffer.remaining (load_active c).active == 0)) [
        | inl f ↦ rw (e, f) (Steps-finish (load_active c) n queued (rw (e, f) at one))
        | inr f ↦ rw (e, f) (then_one (rw (e, f) at one) (advances would_block))
      ]
      | inr e ↦ rw e (Steps-finish c n queued (rw e at one))
    ]
Steps-flush_loop {first} (a ∷ answers) flushed c n queued ss =
    let one = Steps-load flushed c n queued ss in
    elim (Bool-cases (ltb flushed write_flush_budget_bytes)) [
      | inl e ↦ elim (Bool-cases (SendBuffer.remaining (load_active c).active == 0)) [
        | inl f ↦ rw (e, f) (Steps-finish (load_active c) n queued (rw (e, f) at one))
        | inr f ↦
            rw (e, f)
              (send (λ k d. Steps-flush_loop {first = first} answers k d n queued) a
                (rw (e, f) at one))
      ]
      | inr e ↦ rw e (Steps-finish c n queued (rw e at one))
    ]
  where
    can_send : ℕ
    can_send =
        min (SendBuffer.remaining (load_active c).active) (write_flush_budget_bytes - flushed)

    round : Answer → Connection × Ending
    round a = elim a [
      | accepts k ↦
          flush_loop answers (flushed + min (max 1 k) can_send)
            (took (min (max 1 k) can_send) (load_active c))
      | would_block ↦ (load_active c, blocked)
      | fails ↦ (load_active c, broken)
    ]

    send :
        ((k : ℕ) (d : Connection)
          → Steps first (at d (looping k) n queued)
          → Steps first (at (finish_write (flush_loop answers k d)) waiting n queued))
        → (a : Answer) → Steps first (at (load_active c) (sending flushed can_send) n queued)
        → Steps first (at (finish_write (round a)) waiting n queued)
    send rest (accepts k) ss =
        rest (flushed + min (max 1 k) can_send) (took (min (max 1 k) can_send) (load_active c))
          (then_one (then_one ss (advances (accepts k))) (advances would_block))
    send rest would_block ss = then_one ss (advances would_block)
    send rest fails ss = then_one ss (advances fails)

-- A run of `handleWrite` that nothing interrupts is a sequence of its steps: from a connection that is
-- registered for `EPOLLOUT`, they lead to what `handle_write` makes of it, whatever the kernel answers.
pub handle_write-Steps :
    (answers : List Answer) (c : Connection) (n : ℕ) (queued : Bytes)
    → c.epollout ≡ true
    → Steps (at c waiting n queued) (at (handle_write answers c) waiting n queued)
unfolding handle_write
handle_write-Steps answers c n queued on =
    Steps-flush_loop answers 0 c n queued (then_one none_yet (starts refl on))

-- So is a `sendPacket`, on a body of fewer than `2 ^ 32 - 6` bytes: at most two steps, after which the connection
-- is what `send_packet` makes of it and nobody has still to ask for `EPOLLOUT`.
pub send_packet-Steps :
    (msg_type : ℕ) (body : Bytes) (c : Connection) (w : Writer) (queued : Bytes)
    → length body + 6 < 2 ^ 32
    → Steps
        (at c w 0 queued)
        (at (send_packet msg_type body c) w 0 (enqueue msg_type body (at c w 0 queued)).queued)
unfolding send_packet enqueue is_full put total_length arm enable
send_packet-Steps msg_type body c w queued small =
    let sent : Steps (at c w 0 queued) (enqueue msg_type body (at c w 0 queued)) =
      then_one none_yet (sends msg_type body small) in
    elim (Bool-cases (
      ltb max_pending_send_buffer
        ((c.pending_bytes + (6 + length body % 2 ^ 32) % 2 ^ 32) % u64_mod))) [
          | inl e ↦ rw e (rw e at sent)
          | inr e ↦ elim (Bool-cases c.write_armed) [
            | inl f ↦ rw (e, f) (rw (e, f) at sent)
            | inr f ↦ rw (e, f) (then_one (rw (e, f) at sent) (enables (omega arith)))
          ]
        ]
