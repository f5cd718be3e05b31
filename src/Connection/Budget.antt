-- ===== src/Connection/Budget.antt =====
-- The budget of `handleWrite`: how much one run sends, and what is left when it stops by itself.
use linux.Base.{
  ℕ, ◌+◌, ◌-◌, ◌≤◌, min, max, ◌≡◌, refl, ap, ◌∙◌, ◌⊎◌, inl, inr, true, false, ◌&&◌, List, [], ◌∷◌,
  arith, ltb, ◌==◌, Bool-cases, length, take, length-append, length-take,
}
use linux.SendBuffer
use linux.SendBuffer.{SendBuffer, remaining-current_data}
use linux.Connection.{
  Connection, Answer, accepts, would_block, fails, Ending, drained, blocked, broken, load_active,
  took, flush_loop, finish_write, handle_write, disconnect, write_flush_budget_bytes,
}

took-wire :
    (n : ℕ) (c : Connection)
    → n ≤ SendBuffer.remaining c.active
    → length (took n c).wire ≡ length c.wire + n
unfolding took
took-wire n c h =
    length-append c.wire (take n (SendBuffer.current_data c.active))
    ∙ ap (λ k. length c.wire + k)
        (length-take n (SendBuffer.current_data c.active)
          ∙ ground (arith, remaining-current_data c.active))

load_active-wire : (c : Connection) → (load_active c).wire ≡ c.wire
unfolding load_active
load_active-wire c =
    elim (Bool-cases
      (SendBuffer.remaining c.active == 0 && ltb 0 (SendBuffer.remaining c.pending))) [
        | inl e ↦ rw e refl
        | inr e ↦ rw e refl
      ]

load_active-idle :
    (c : Connection)
    → SendBuffer.remaining (load_active c).active ≡ 0
    → SendBuffer.remaining (load_active c).pending ≡ 0
unfolding load_active
load_active-idle c =
    elim (Bool-cases
      (SendBuffer.remaining c.active == 0 && ltb 0 (SendBuffer.remaining c.pending))) [
        | inl e ↦ rw e (λ h. ground arith)
        | inr e ↦ rw e (λ h. ground arith)
      ]

abbrev Stops : ℕ → Connection → Connection × Ending → Type 0
Stops flushed c (d, ending) =
    (length d.wire + flushed ≤ length c.wire + write_flush_budget_bytes)
    × (ending ≡ drained
        → (length d.wire + flushed ≡ length c.wire + write_flush_budget_bytes)
          ⊎ ((SendBuffer.remaining d.active ≡ 0) × (SendBuffer.remaining d.pending ≡ 0)))

same_length : (c : Connection) → length (load_active c).wire ≡ length c.wire
same_length c = ap length (load_active-wire c)

spent :
    (flushed : ℕ) (c : Connection)
    → flushed ≤ write_flush_budget_bytes
    → ltb flushed write_flush_budget_bytes ≡ false
    → Stops flushed c (c, drained)
spent flushed c h e = (omega arith, λ _. inl (ground arith))

idle :
    (flushed : ℕ) (c : Connection)
    → flushed ≤ write_flush_budget_bytes
    → (SendBuffer.remaining (load_active c).active == 0) ≡ true
    → Stops flushed c (load_active c, drained)
idle flushed c h f =
    let none_left : SendBuffer.remaining (load_active c).active ≡ 0 = ground arith in
    (omega (arith, same_length c), λ _. inr (none_left, load_active-idle c none_left))

-- A run of the loop stays within the budget, and ends by its own tests only when it is used up or nothing is
-- queued.
flush_loop-Stops :
    (answers : List Answer) (flushed : ℕ) (c : Connection)
    → flushed ≤ write_flush_budget_bytes
    → Stops flushed c (flush_loop answers flushed c)
unfolding flush_loop
flush_loop-Stops [] flushed c h = elim (Bool-cases (ltb flushed write_flush_budget_bytes)) [
  | inl e ↦ elim (Bool-cases (SendBuffer.remaining (load_active c).active == 0)) [
    | inl f ↦ rw (e, f) (idle flushed c h f)
    | inr f ↦ rw (e, f) (omega (arith, same_length c), λ g. cc)
  ]
  | inr e ↦ rw e (spent flushed c h e)
]
flush_loop-Stops (a ∷ answers) flushed c h =
    elim (Bool-cases (ltb flushed write_flush_budget_bytes)) [
      | inl e ↦ elim (Bool-cases (SendBuffer.remaining (load_active c).active == 0)) [
        | inl f ↦ rw (e, f) (idle flushed c h f)
        | inr f ↦ rw (e, f) (round (λ k. flush_loop-Stops answers k) a)
      ]
      | inr e ↦ rw e (spent flushed c h e)
    ]
  where
    can_send : ℕ
    can_send =
        min (SendBuffer.remaining (load_active c).active) (write_flush_budget_bytes - flushed)

    step : Answer → Connection × Ending
    step a = elim a [
      | accepts n ↦
          flush_loop answers (flushed + min (max 1 n) can_send)
            (took (min (max 1 n) can_send) (load_active c))
      | would_block ↦ (load_active c, blocked)
      | fails ↦ (load_active c, broken)
    ]

    round :
        ((k : ℕ) (d : Connection)
          → k ≤ write_flush_budget_bytes
          → Stops k d (flush_loop answers k d))
        → (a : Answer) → Stops flushed c (step a)
    round rest (accepts n) =
        let sent : ℕ = min (max 1 n) can_send in
        let bound : flushed + sent ≤ write_flush_budget_bytes = omega arith in
        let longer : length (took sent (load_active c)).wire ≡ length (load_active c).wire + sent =
          took-wire sent (load_active c) (omega arith) in
        let next = rest (flushed + sent) (took sent (load_active c)) bound in
        (
          omega (arith, next.0, longer, same_length c),
          λ g. elim (next.1 g) [
            | inl used ↦ inl (omega (arith, used, longer, same_length c))
            | inr empty ↦ inr empty
          ],
        )
    round rest would_block = (omega (arith, same_length c), λ g. cc)
    round rest fails = (omega (arith, same_length c), λ g. cc)

-- `handleWrite` sends at most 64 KB in one run, whatever the kernel answers; and when its loop ends without an
-- error and without `EAGAIN`, it has sent exactly that much, or nothing is queued any more.
pub handle_write_budget :
    (answers : List Answer) (c : Connection)
    → let c' = handle_write answers c in
      (length c'.wire ≤ length c.wire + write_flush_budget_bytes)
      × ((flush_loop answers 0 c).1 ≡ drained
          → (length c'.wire ≡ length c.wire + write_flush_budget_bytes)
            ⊎ ((SendBuffer.remaining c'.active ≡ 0) × (SendBuffer.remaining c'.pending ≡ 0)))
unfolding handle_write finish_write disconnect
handle_write_budget answers c =
    finish (flush_loop answers 0 c) (flush_loop-Stops answers 0 c (omega arith))
  where
    finish :
        (r : Connection × Ending)
        → Stops 0 c r
        → (length (finish_write r).wire ≤ length c.wire + write_flush_budget_bytes)
          × (r.1 ≡ drained
              → (length (finish_write r).wire ≡ length c.wire + write_flush_budget_bytes)
                ⊎ ((SendBuffer.remaining (finish_write r).active ≡ 0)
                    × (SendBuffer.remaining (finish_write r).pending ≡ 0)))
    finish (d, drained) t =
        elim (Bool-cases
          (SendBuffer.remaining d.active == 0 && SendBuffer.remaining d.pending == 0)) [
            | inl e ↦ elim (Bool-cases d.has_reactor) [
              | inl f ↦ rw (e, f) (omega (arith, t.0), λ g. inr (ground arith, ground arith))
              | inr f ↦ rw (e, f) (omega (arith, t.0), λ g. inr (ground arith, ground arith))
            ]
            | inr e ↦ rw e (
              omega (arith, t.0),
              λ g. elim (t.1 g) [ inl used ↦ inl (omega (arith, used)) | inr empty ↦ inr empty ],
            )
          ]
    finish (d, blocked) t = (omega (arith, t.0), λ g. cc)
    finish (d, broken) t = (omega (arith, t.0), λ g. cc)
