-- ===== src/Connection/Threads/Safe.antt =====
-- Every step of every thread keeps the queues, the count, the flag and what waits to be sent in order.
use linux.Base.{
  ℕ, ◌+◌, ◌-◌, ◌%◌, ◌^◌, ◌≤◌, ◌<◌, min, max, ◌≡◌, refl, sym, ap, ◌∙◌, inl, inr, Bool, true, false,
  ◌&&◌, ◌++◌, append-nil, arith, Bytes, u64_mod, ltb, leb, ◌==◌, Bool-cases, length, drop,
}
use linux.SendBuffer
use linux.SendBuffer.{SendBuffer, current_data-consume, remaining-current_data}
use linux.Framing.{htonl, htons, packet}
use linux.Connection.{
  Connection, Answer, accepts, would_block, fails, load_active, disconnect, ask_epollout,
  max_pending_send_buffer, write_flush_budget_bytes,
}
use linux.Connection.Flow.{no_data, move_over, remaining-consume}
use linux.Connection.Send
use linux.Connection.Threads.{
  Writer, waiting, looping, sending, taken, finishing, disabling, Shared, total_length, is_full,
  put, enqueue, enable, load, call, commit, conclude, step_at, advance, Step, sends, registers,
  register, enables, starts, advances,
}

-- The bytes that the kernel has taken and the buffer still has.
abbrev pub in_flight : Writer → ℕ
in_flight (taken flushed sent) = sent
in_flight _ = 0

-- What the local variables of `handleWrite` say of the buffer.
abbrev pub Fits : Writer → ℕ → Type 0
Fits (sending flushed can_send) left = (1 ≤ can_send) × (can_send ≤ left)
Fits (taken flushed sent) left = sent ≤ left
Fits _ left = Unit

-- What was sent, and what is and waits to be sent.
abbrev pub held : Connection → ℕ → Bytes
held c n =
    c.wire ++ (drop n (SendBuffer.current_data c.active) ++ SendBuffer.current_data c.pending)

pub record IsSafe (s : Shared) : Type 0 where
  pub pending_valid : SendBuffer.IsValid s.connection.pending
  pub active_valid : SendBuffer.IsValid s.connection.active
  pub counted :
      s.connection.pending_bytes
      ≡ SendBuffer.remaining s.connection.active + SendBuffer.remaining s.connection.pending
  pub limited : s.connection.pending_bytes ≤ max_pending_send_buffer
  -- While bytes are queued, `writeArmed` is set.
  pub armed : 0 < s.connection.pending_bytes → s.connection.write_armed ≡ true
  pub fits : Fits s.writer (SendBuffer.remaining s.connection.active)
  pub kept : held s.connection (in_flight s.writer) ≡ s.queued

-- A step that leaves the buffers, the count, the flag and the wire alone.
same :
    (s : Shared) (has_reactor epollout open_ : Bool) (w : Writer) (n : ℕ)
    → in_flight w ≡ in_flight s.writer
    → Fits w (SendBuffer.remaining s.connection.active)
    → IsSafe s
    → IsSafe (record s {
      connection = record s.connection {
        has_reactor = has_reactor;
        epollout = epollout;
        open_ = open_;
      };
      writer = w;
      enabling = n;
    })
same s r e o w n f g h = record {
  pending_valid = h.pending_valid;
  active_valid = h.active_valid;
  counted = h.counted;
  limited = h.limited;
  armed = h.armed;
  fits = g;
  kept = ap (held s.connection) f ∙ h.kept;
}

asked-IsSafe :
    (s : Shared) (on : Bool) (w : Writer) (n : ℕ)
    → in_flight w ≡ in_flight s.writer
    → Fits w (SendBuffer.remaining s.connection.active)
    → IsSafe s
    → IsSafe (record s { connection = ask_epollout on s.connection; writer = w; enabling = n })
asked-IsSafe s on w n f g h = elim (Bool-cases s.connection.has_reactor) [
  | inl e ↦ rw e (same s true on s.connection.open_ w n f g h)
  | inr e ↦ rw e (same s false s.connection.epollout s.connection.open_ w n f g h)
]

enqueue-IsSafe :
    (msg_type : ℕ) (body : Bytes) (s : Shared)
    → length body + 6 < 2 ^ 32
    → IsSafe s
    → IsSafe (enqueue msg_type body s)
unfolding enqueue is_full put total_length packet disconnect
enqueue-IsSafe msg_type body s small h =
    let c = s.connection in
    let total : (6 + length body % 2 ^ 32) % 2 ^ 32 ≡ 6 + length body = omega arith in
    let word : (c.pending_bytes + (6 + length body)) % u64_mod
        ≡ c.pending_bytes + (6 + length body) =
      omega (arith, h.limited) in
    elim (Bool-cases (ltb max_pending_send_buffer (c.pending_bytes + (6 + length body)))) [
      | inl e ↦
          rw (total, word, e) (same s c.has_reactor false false s.writer s.enabling refl h.fits h)
      | inr e ↦
          let (valid, bytes, size) =
            Send.queued (msg_type % 2 ^ 16) (6 + length body) body c.pending h.pending_valid
              (omega (arith, h.counted, h.limited)) in
          rw (total, word, e)
            record {
              pending_valid = valid;
              active_valid = h.active_valid;
              counted = omega (arith, size, h.counted);
              limited = ground arith;
              armed = λ p. refl;
              fits = h.fits;
              kept =
                  ap
                    (λ d.
                      c.wire ++ (drop (in_flight s.writer) (SendBuffer.current_data c.active) ++ d))
                    bytes
                  ∙ Send.behind c.wire
                      (drop (in_flight s.writer) (SendBuffer.current_data c.active))
                      (SendBuffer.current_data c.pending) framed
                  ∙ ap (λ d. d ++ framed) h.kept;
            }
    ]
  where
    framed : Bytes
    framed = htonl (6 + length body) ++ (htons (msg_type % 2 ^ 16) ++ body)

-- The swap changes none of the bytes while nothing is in flight.
load_active-held :
    (c : Connection)
    → (SendBuffer.remaining c.active == 0 && ltb 0 (SendBuffer.remaining c.pending)) ≡ true
    → held (record c { active = c.pending; pending = c.active }) 0 ≡ held c 0
load_active-held c e =
    let idle : SendBuffer.remaining c.active ≡ 0 = ground arith in
    rw (no_data c.active idle)
      (ap (λ d. c.wire ++ d) (append-nil (SendBuffer.current_data c.pending)))

loaded :
    (s : Shared) (w : Writer)
    → in_flight w ≡ 0
    → in_flight s.writer ≡ 0
    → Fits w (SendBuffer.remaining (load_active s.connection).active)
    → IsSafe s
    → IsSafe (record s { connection = load_active s.connection; writer = w })
unfolding load_active
loaded s w f g fit h =
    elim (Bool-cases (
      SendBuffer.remaining s.connection.active == 0
      && ltb 0 (SendBuffer.remaining s.connection.pending))) [
        | inl e ↦ rw e record {
          pending_valid = h.active_valid;
          active_valid = h.pending_valid;
          counted = omega (arith, h.counted);
          limited = h.limited;
          armed = h.armed;
          fits = rw e at fit;
          kept =
              ap (held swapped) f
              ∙ load_active-held s.connection e
              ∙ ap (held s.connection) (sym g)
              ∙ h.kept;
        }
        | inr e ↦ rw e (
            same s s.connection.has_reactor s.connection.epollout s.connection.open_ w s.enabling
              (f ∙ sym g) (rw e at fit) h)
      ]
  where
    swapped : Connection
    swapped = record s.connection { active = s.connection.pending; pending = s.connection.active }

load-IsSafe :
    (flushed : ℕ) (s : Shared) → in_flight s.writer ≡ 0 → IsSafe s → IsSafe (load flushed s)
unfolding load
load-IsSafe flushed s g h = elim (Bool-cases (ltb flushed write_flush_budget_bytes)) [
  | inl e ↦ elim (Bool-cases (SendBuffer.remaining (load_active s.connection).active == 0)) [
    | inl f ↦ rw (e, f) (loaded s finishing refl g tt h)
    | inr f ↦
        rw (e, f)
          (loaded s
            (sending flushed (
              min (SendBuffer.remaining (load_active s.connection).active)
                (write_flush_budget_bytes - flushed)))
            refl g (ground arith, omega arith) h)
  ]
  | inr e ↦ rw e (
      same s s.connection.has_reactor s.connection.epollout s.connection.open_ finishing s.enabling
        (sym g) tt h)
]

call-IsSafe :
    (flushed can_send : ℕ) (a : Answer) (s : Shared)
    → in_flight s.writer ≡ 0
    → 1 ≤ can_send
    → can_send ≤ SendBuffer.remaining s.connection.active
    → IsSafe s
    → IsSafe (call flushed can_send a s)
unfolding call disconnect
call-IsSafe flushed can_send (accepts n) s g pos le h =
    let c = s.connection in
    let sent = min (max 1 n) can_send in
    record {
      pending_valid = h.pending_valid;
      active_valid = h.active_valid;
      counted = h.counted;
      limited = h.limited;
      armed = h.armed;
      fits = omega arith;
      kept =
          move_over sent c.wire (SendBuffer.current_data c.active)
            (SendBuffer.current_data c.pending)
          ∙ ap (held c) (sym g)
          ∙ h.kept;
    }
call-IsSafe flushed can_send would_block s g pos le h =
    same s s.connection.has_reactor s.connection.epollout s.connection.open_ waiting s.enabling
      (sym g) tt h
call-IsSafe flushed can_send fails s g pos le h =
    same s s.connection.has_reactor false false waiting s.enabling (sym g) tt h

commit-IsSafe :
    (flushed sent : ℕ) (s : Shared)
    → s.writer ≡ taken flushed sent
    → IsSafe s
    → IsSafe (commit flushed sent s)
unfolding commit
commit-IsSafe flushed sent s w h =
    let c = s.connection in
    let le : sent ≤ SendBuffer.remaining c.active = rw w at h.fits in
    let (valid, bytes) = current_data-consume c.active sent h.active_valid le in
    let left = remaining-consume c.active sent bytes in
    let counts : leb sent c.pending_bytes ≡ true = ground (arith, h.counted) in
    rw counts record {
      pending_valid = h.pending_valid;
      active_valid = valid;
      counted = omega (arith, left, h.counted);
      limited = omega (arith, h.limited);
      armed = λ p. h.armed (omega arith);
      fits = tt;
      kept =
          ap (λ d. c.wire ++ (d ++ SendBuffer.current_data c.pending)) bytes
          ∙ ap (held c) (sym (ap in_flight w))
          ∙ h.kept;
    }

conclude-IsSafe : (s : Shared) → in_flight s.writer ≡ 0 → IsSafe s → IsSafe (conclude s)
unfolding conclude
conclude-IsSafe s g h =
    elim (Bool-cases (
      SendBuffer.remaining s.connection.active == 0
      && SendBuffer.remaining s.connection.pending == 0)) [
        | inl e ↦ rw e record {
          pending_valid = h.pending_valid;
          active_valid = h.active_valid;
          counted = h.counted;
          limited = h.limited;
          armed = λ p. absurd (ground (arith, h.counted));
          fits = tt;
          kept = ap (held s.connection) (sym g) ∙ h.kept;
        }
        | inr e ↦ rw e (
            same s s.connection.has_reactor s.connection.epollout s.connection.open_ waiting
              s.enabling (sym g) tt h)
      ]

pub advance-IsSafe : (a : Answer) (s : Shared) → IsSafe s → IsSafe (advance a s)
unfolding advance step_at
advance-IsSafe a s h = go s.writer refl
  where
    go : (w : Writer) → s.writer ≡ w → IsSafe (step_at w a s)
    go waiting e = h
    go (looping flushed) e = load-IsSafe flushed s (ap in_flight e) h
    go (sending flushed can_send) e =
        let (pos, le) : Fits (sending flushed can_send) (SendBuffer.remaining s.connection.active) =
          rw e at h.fits in
        call-IsSafe flushed can_send a s (ap in_flight e) pos le h
    go (taken flushed sent) e = commit-IsSafe flushed sent s e h
    go finishing e = conclude-IsSafe s (ap in_flight e) h
    go disabling e = asked-IsSafe s false waiting s.enabling (sym (ap in_flight e)) tt h

pub Step-IsSafe : {s s' : Shared} → Step s s' → IsSafe s → IsSafe s'
unfolding enable register
Step-IsSafe (sends {s} msg_type body small) h = enqueue-IsSafe msg_type body s small h
Step-IsSafe (registers {s} e) h =
    same s true false s.connection.open_ s.writer s.enabling refl h.fits h
Step-IsSafe (enables {s} p) h = asked-IsSafe s true s.writer (s.enabling - 1) refl h.fits h
Step-IsSafe (starts {s} e on) h =
    same s s.connection.has_reactor s.connection.epollout s.connection.open_ (looping 0) s.enabling
      (sym (ap in_flight e)) tt h
Step-IsSafe (advances {s} a) h = advance-IsSafe a s h
