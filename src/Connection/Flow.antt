-- ===== src/Connection/Flow.antt =====
-- Every byte that is queued reaches the wire once and in order, and is counted.
use linux.Base.{
  ℕ, ◌+◌, ◌-◌, ◌≤◌, ◌<◌, min, max, ◌≡◌, refl, sym, ap, ◌∙◌, inl, inr, Bool, true, false, ◌&&◌, List,
  [], ◌∷◌, ◌++◌, append-nil, append_assoc, arith, Bytes, ltb, leb, ◌==◌, if◌then◌else◌, Bool-cases,
  length, take, drop, take-append-drop, length-drop,
}
use linux.SendBuffer
use linux.SendBuffer.{SendBuffer, current_data-append, current_data-consume, remaining-current_data}
use linux.Connection.{
  Connection, Answer, accepts, would_block, fails, Ending, drained, blocked, broken, load_active,
  took, flush_loop, finish_write, handle_write, disconnect, max_pending_send_buffer,
  write_flush_budget_bytes,
}

-- What was sent, then what is being sent, then what waits.
abbrev pub flow : Connection → Bytes
flow c = c.wire ++ (SendBuffer.current_data c.active ++ SendBuffer.current_data c.pending)

pub record IsSound (c : Connection) : Type 0 where
  pub pending_valid : SendBuffer.IsValid c.pending
  pub active_valid : SendBuffer.IsValid c.active
  -- `pendingBytes` is the number of queued bytes, within the limit.
  pub counted : c.pending_bytes ≡ SendBuffer.remaining c.active + SendBuffer.remaining c.pending
  pub limited : c.pending_bytes ≤ max_pending_send_buffer
  -- While bytes are queued, the connection waits for `EPOLLOUT`.
  pub armed : 0 < c.pending_bytes → c.write_armed ≡ true

pub no_data : (b : SendBuffer) → SendBuffer.remaining b ≡ 0 → SendBuffer.current_data b ≡ []
no_data b h = go (SendBuffer.current_data b) (remaining-current_data b ∙ h)
  where
    go : (xs : Bytes) → length xs ≡ 0 → xs ≡ []
    go [] e = refl
    go (x ∷ xs) e = absurd (omega arith)

load_active-flow :
    (c : Connection) → IsSound c → IsSound (load_active c) × (flow (load_active c) ≡ flow c)
unfolding load_active
load_active-flow c s =
    elim (Bool-cases
      (SendBuffer.remaining c.active == 0 && ltb 0 (SendBuffer.remaining c.pending))) [
        | inl e ↦
            let idle : SendBuffer.remaining c.active ≡ 0 = ground arith in
            rw e (
              record {
                pending_valid = s.active_valid;
                active_valid = s.pending_valid;
                counted = omega (arith, s.counted);
                limited = s.limited;
                armed = s.armed;
              },
              rw (no_data c.active idle)
                  (ap (λ d. c.wire ++ d) (append-nil (SendBuffer.current_data c.pending))),
            )
        | inr e ↦ rw e (s, refl)
      ]

-- Taking `n` bytes from the front of a list and putting them behind another changes nothing of the whole.
pub move_over :
    (n : ℕ) (wire queued rest : Bytes)
    → (wire ++ take n queued) ++ (drop n queued ++ rest) ≡ wire ++ (queued ++ rest)
move_over n wire queued rest =
    append_assoc wire (take n queued) (drop n queued ++ rest)
    ∙ ap (λ d. wire ++ d)
        (sym (append_assoc (take n queued) (drop n queued) rest)
          ∙ ap (λ d. d ++ rest) (take-append-drop n queued))

pub remaining-consume :
    (b : SendBuffer) (n : ℕ)
    → SendBuffer.current_data (SendBuffer.consume n b) ≡ drop n (SendBuffer.current_data b)
    → SendBuffer.remaining (SendBuffer.consume n b) ≡ SendBuffer.remaining b - n
remaining-consume b n e =
    sym (remaining-current_data (SendBuffer.consume n b))
    ∙ ap length e
    ∙ length-drop n (SendBuffer.current_data b)
    ∙ ap (λ k. k - n) (remaining-current_data b)

took-flow :
    (n : ℕ) (c : Connection)
    → IsSound c
    → n ≤ SendBuffer.remaining c.active
    → IsSound (took n c) × (flow (took n c) ≡ flow c)
unfolding took
took-flow n c s h =
    let (valid, queued) = current_data-consume c.active n s.active_valid h in
    let left = remaining-consume c.active n queued in
    let counts : leb n c.pending_bytes ≡ true = ground (arith, s.counted) in
    rw counts (
      record {
        pending_valid = s.pending_valid;
        active_valid = valid;
        counted = omega (arith, left, s.counted);
        limited = omega (arith, s.limited);
        armed = λ p. s.armed (omega arith);
      },
      rw queued (
          move_over n c.wire (SendBuffer.current_data c.active)
            (SendBuffer.current_data c.pending)),
    )

-- No round loses, repeats or reorders a byte.
flush_loop-flow :
    (answers : List Answer) (flushed : ℕ) (c : Connection)
    → IsSound c
    → IsSound (flush_loop answers flushed c).0 × (flow (flush_loop answers flushed c).0 ≡ flow c)
unfolding flush_loop
flush_loop-flow [] flushed c s = elim (Bool-cases (ltb flushed write_flush_budget_bytes)) [
  | inl e ↦ elim (Bool-cases (SendBuffer.remaining (load_active c).active == 0)) [
    | inl f ↦ rw (e, f) (load_active-flow c s)
    | inr f ↦ rw (e, f) (load_active-flow c s)
  ]
  | inr e ↦ rw e (s, refl)
]
flush_loop-flow (a ∷ answers) flushed c s =
    elim (Bool-cases (ltb flushed write_flush_budget_bytes)) [
      | inl e ↦ elim (Bool-cases (SendBuffer.remaining (load_active c).active == 0)) [
        | inl f ↦ rw (e, f) (load_active-flow c s)
        | inr f ↦ rw (e, f) (send (λ k. flush_loop-flow answers k) a)
      ]
      | inr e ↦ rw e (s, refl)
    ]
  where
    can_send : ℕ
    can_send =
        min (SendBuffer.remaining (load_active c).active) (write_flush_budget_bytes - flushed)

    Kept : Connection → Type 0
    Kept c' = IsSound c' × (flow c' ≡ flow c)

    step : Answer → Connection × Ending
    step a = elim a [
      | accepts n ↦
          flush_loop answers (flushed + min (max 1 n) can_send)
            (took (min (max 1 n) can_send) (load_active c))
      | would_block ↦ (load_active c, blocked)
      | fails ↦ (load_active c, broken)
    ]

    send :
        ((k : ℕ) (d : Connection)
          → IsSound d
          → IsSound (flush_loop answers k d).0 × (flow (flush_loop answers k d).0 ≡ flow d))
        → (a : Answer) → Kept (step a).0
    send rest (accepts n) =
        let (loaded, same) = load_active-flow c s in
        let (sound, kept) =
          took-flow (min (max 1 n) can_send) (load_active c) loaded (omega arith) in
        let (sound', kept') =
          rest (flushed + min (max 1 n) can_send) (took (min (max 1 n) can_send) (load_active c))
            sound in
        (sound', kept' ∙ kept ∙ same)
    send rest would_block = load_active-flow c s
    send rest fails = load_active-flow c s

-- What `epoll_ctl` is asked for plays no part in the queues.
pub asked :
    (has_reactor on : Bool) (c : Connection)
    → IsSound c
    → IsSound (if has_reactor then record c { epollout = on } else c)
      × (flow (if has_reactor then record c { epollout = on } else c) ≡ flow c)
asked false on c s = (s, refl)
asked true on c s = (
  record {
    pending_valid = s.pending_valid;
    active_valid = s.active_valid;
    counted = s.counted;
    limited = s.limited;
    armed = s.armed;
  },
  refl,
)

-- Each run of `handleWrite` keeps every queued byte in its place between what was sent and what waits, and
-- keeps the connection sound, whatever the kernel answers.
pub handle_write-flow :
    (answers : List Answer) (c : Connection)
    → IsSound c
    → IsSound (handle_write answers c) × (flow (handle_write answers c) ≡ flow c)
unfolding handle_write finish_write disconnect
handle_write-flow answers c s =
    let (sound, same) = flush_loop-flow answers 0 c s in
    let (sound', same') = finish (flush_loop answers 0 c) sound in (sound', same' ∙ same)
  where
    finish :
        (r : Connection × Ending)
        → IsSound r.0
        → IsSound (finish_write r) × (flow (finish_write r) ≡ flow r.0)
    finish (d, drained) t =
        elim (Bool-cases
          (SendBuffer.remaining d.active == 0 && SendBuffer.remaining d.pending == 0)) [
            | inl e ↦ rw e (asked d.has_reactor false (record d { write_armed = false }) (idle e))
            | inr e ↦ rw e (t, refl)
          ]
      where
        idle :
            (SendBuffer.remaining d.active == 0 && SendBuffer.remaining d.pending == 0) ≡ true
            → IsSound (record d { write_armed = false })
        idle e = record {
          pending_valid = t.pending_valid;
          active_valid = t.active_valid;
          counted = t.counted;
          limited = t.limited;
          armed = λ p. absurd (ground (arith, t.counted));
        }
    finish (d, blocked) t = (t, refl)
    finish (d, broken) t = (
      record {
        pending_valid = t.pending_valid;
        active_valid = t.active_valid;
        counted = t.counted;
        limited = t.limited;
        armed = t.armed;
      },
      refl,
    )
