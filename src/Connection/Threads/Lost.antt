-- ===== src/Connection/Threads/Lost.antt =====
-- Packets that are accepted and never sent: `EPOLLOUT` is taken back, or was asked for too early.
use linux.Base.{
  ℕ, ◌+◌, ◌%◌, ◌^◌, ◌≤◌, ◌<◌, ◌≡◌, refl, sym, ◌∙◌, subst, inl, inr, true, false, ◌&&◌, ◌++◌, arith,
  Bytes, ◌==◌, Bool-cases, length, true_ne_false,
}
use linux.SendBuffer
use linux.Connection.{Connection, would_block, disconnect, max_pending_send_buffer}
use linux.Framing.{packet}
use linux.Connection.Threads.{
  new_shared, waiting, finishing, Shared, total_length, is_full, put, enqueue, enable, step_at,
  conclude, advance, Step, sends, registers, register, enables, starts, advances, Steps, none_yet,
  then_one,
}
use linux.Connection.Threads.Safe.{IsSafe}

-- Nobody is left to ask for `EPOLLOUT`, while `writeArmed` says that somebody did.
pub record IsStuck (s : Shared) : Type 0 where
  pub armed : s.connection.write_armed ≡ true
  pub off : s.connection.epollout ≡ false
  pub nobody : s.enabling ≡ 0
  pub idle : s.writer ≡ waiting

enqueue-IsStuck :
    (msg_type : ℕ) (body : Bytes) (s : Shared)
    → IsStuck s
    → IsStuck (enqueue msg_type body s)
      × ((enqueue msg_type body s).connection.wire ≡ s.connection.wire)
unfolding enqueue put disconnect
enqueue-IsStuck msg_type body s h = elim (Bool-cases (is_full body s.connection)) [
  | inl e ↦ rw e (record { armed = h.armed; off = refl; nobody = h.nobody; idle = h.idle }, refl)
  | inr e ↦
      rw (e, h.armed) (record { armed = refl; off = h.off; nobody = h.nobody; idle = h.idle }, refl)
]

Step-IsStuck :
    {s s' : Shared} → Step s s' → IsStuck s → IsStuck s' × (s'.connection.wire ≡ s.connection.wire)
unfolding advance step_at register
Step-IsStuck (sends {s} msg_type body small) h = enqueue-IsStuck msg_type body s h
Step-IsStuck (registers e) h =
    (record { armed = h.armed; off = refl; nobody = h.nobody; idle = h.idle }, refl)
Step-IsStuck (enables p) h = absurd (omega (arith, h.nobody))
Step-IsStuck (starts e on) h = absurd (true_ne_false (sym on ∙ h.off))
Step-IsStuck (advances {s} a) h =
    subst (λ w. IsStuck (step_at w a s) × ((step_at w a s).connection.wire ≡ s.connection.wire))
      (sym h.idle) (h, refl)

Steps-IsStuck :
    {first s : Shared}
    → IsStuck first
    → Steps first s
    → IsStuck s × (s.connection.wire ≡ first.connection.wire)
Steps-IsStuck h none_yet = (h, refl)
Steps-IsStuck h (then_one ss one) =
    let (stuck, same) = Steps-IsStuck h ss in
    let (stuck', same') = Step-IsStuck one stuck in (stuck', same' ∙ same)

-- `handleWrite` behind its loop, and no `sendPacket` under way.
abbrev pub finished : Connection → Bytes → Shared
finished c queued = record { connection = c; writer = finishing; enabling = 0; queued = queued }

-- `handleWrite` clears `writeArmed`, `sendPacket` runs, and `handleWrite` goes on to its `epoll_ctl`.
abbrev pub overtaken : ℕ → Bytes → Shared → Shared
overtaken msg_type body s =
    advance would_block (enable (enqueue msg_type body (advance would_block s)))

not_full :
    (body : Bytes) (c : Connection)
    → c.pending_bytes ≡ 0
    → length body + 6 ≤ max_pending_send_buffer
    → is_full body c ≡ false
unfolding is_full total_length
not_full body c idle small =
    let total : (6 + length body % 2 ^ 32) % 2 ^ 32 ≡ 6 + length body = omega arith in
    rw (total, idle) (ground arith)

overtaken-IsStuck :
    (msg_type : ℕ) (body : Bytes) (c : Connection) (queued : Bytes)
    → (SendBuffer.remaining c.active == 0 && SendBuffer.remaining c.pending == 0) ≡ true
    → is_full body (record c { write_armed = false }) ≡ false
    → c.has_reactor ≡ true
    → (0 < (enqueue msg_type body (advance would_block (finished c queued))).enabling)
      × IsStuck (overtaken msg_type body (finished c queued))
      × ((overtaken msg_type body (finished c queued)).connection.wire ≡ c.wire)
      × ((overtaken msg_type body (finished c queued)).queued ≡ queued ++ packet msg_type body)
unfolding advance step_at conclude enqueue enable put
overtaken-IsStuck msg_type body c queued drained fits on =
    rw (drained, fits, on)
      (omega arith, record { armed = refl; off = refl; nobody = refl; idle = refl }, refl, refl)

-- A lost wake-up: when `handleWrite` has sent all there was, and a `sendPacket` runs between its clearing of
-- `writeArmed` and its `epoll_ctl`, the packet is accepted, and after any further steps of any thread the wire
-- still is what it was.
pub lost_wakeup :
    (msg_type : ℕ) (body : Bytes) (c : Connection) (queued : Bytes)
    → IsSafe (finished c queued)
    → SendBuffer.remaining c.active ≡ 0
    → SendBuffer.remaining c.pending ≡ 0
    → c.has_reactor ≡ true
    → length body + 6 ≤ max_pending_send_buffer
    → (later : Shared) → Steps (overtaken msg_type body (finished c queued)) later
    → Steps (finished c queued) (overtaken msg_type body (finished c queued))
      × ((overtaken msg_type body (finished c queued)).queued ≡ queued ++ packet msg_type body)
      × (later.connection.wire ≡ c.wire)
lost_wakeup msg_type body c queued h a p on small later ss =
    let drained : (SendBuffer.remaining c.active == 0 && SendBuffer.remaining c.pending == 0)
        ≡ true =
      rw (a, p) refl in
    let fits =
      not_full body (record c { write_armed = false }) (omega (arith, a, p, h.counted)) small in
    let (asks, stuck, same, accepted) = overtaken-IsStuck msg_type body c queued drained fits on in
    let (stuck', same') = Steps-IsStuck stuck ss in
    (
      then_one
          (then_one
            (then_one (then_one none_yet (advances would_block))
              (sends msg_type body (omega arith)))
            (enables asks))
          (advances would_block),
      accepted,
      same' ∙ same,
    )

early-IsStuck :
    (msg_type : ℕ) (body : Bytes) (c : Connection)
    → c.has_reactor ≡ false
    → c.epollout ≡ false
    → c.write_armed ≡ false
    → is_full body c ≡ false
    → (0 < (enqueue msg_type body (new_shared c)).enabling)
      × IsStuck (enable (enqueue msg_type body (new_shared c)))
      × ((enable (enqueue msg_type body (new_shared c))).connection.wire ≡ c.wire)
      × ((enable (enqueue msg_type body (new_shared c))).queued ≡ packet msg_type body)
unfolding enqueue enable put
early-IsStuck msg_type body c off dark unarmed fits =
    rw (fits, off, unarmed)
      (omega arith, record { armed = refl; off = dark; nobody = refl; idle = refl }, refl, refl)

-- A packet that a broadcast sends between `addClientCtx` and `addFd`: the context has no reactor yet, so that
-- nobody asks for `EPOLLOUT`, and after any further steps of any thread, `addFd` among them, the wire still is
-- what it was.
pub early_packet :
    (msg_type : ℕ) (body : Bytes) (c : Connection)
    → c.has_reactor ≡ false
    → c.epollout ≡ false
    → c.write_armed ≡ false
    → c.pending_bytes ≡ 0
    → length body + 6 ≤ max_pending_send_buffer
    → (later : Shared) → Steps (enable (enqueue msg_type body (new_shared c))) later
    → Steps (new_shared c) (enable (enqueue msg_type body (new_shared c)))
      × ((enable (enqueue msg_type body (new_shared c))).queued ≡ packet msg_type body)
      × (later.connection.wire ≡ c.wire)
early_packet msg_type body c off dark unarmed empty small later ss =
    let (asks, stuck, same, accepted) =
      early-IsStuck msg_type body c off dark unarmed (not_full body c empty small) in
    let (stuck', same') = Steps-IsStuck stuck ss in
    (
      then_one (then_one none_yet (sends msg_type body (omega arith))) (enables asks),
      accepted,
      same' ∙ same,
    )
