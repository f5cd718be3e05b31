-- ===== src/Pending/Attempts.antt =====
-- How often the retry loop sends one message, and what messages that are given up do to the others.
use linux.Base.{
  ℕ, zero, suc, ◌+◌, ◌-◌, ◌≤◌, ◌<◌, ◌≡◌, inl, inr, true, false, ◌&&◌, ◌||◌, List, [], ◌++◌, arith,
  Bytes, eqb_refl, leb, if◌then◌else◌, Bool-cases, is_empty,
}
use linux.Pending.Commands.{Redis, Laws}
use linux.Pending.{retry_max_attempts, dispatch_message, dispatch_due_messages_for_user}
use linux.Pending.Retry.{atoi-to_string, msg_id_of, attempts, resent, dispatch_message-cases}

module _ {ℓ} {S : Type ℓ} (redis : Redis S) (laws : Laws redis) where
  open laws use {field}

  resent-attempts :
      (user : Bytes) (now : ℕ) (msg : Bytes) (s : S)
      → attempts redis laws user msg s < retry_max_attempts
      → attempts redis laws user msg (resent redis laws user false now msg s)
        ≡ attempts redis laws user msg s + 1
  unfolding resent
  resent-attempts user now msg s h =
      simp (laws.field-zadd, laws.field-hset, eqb_refl)
        (atoi-to_string (attempts redis laws user msg s + 1) (omega arith))

  -- How often `n` rounds of the retry loop send a message, when they meet it at the given times.
  pub resends : ℕ → Bytes → (ℕ → ℕ) → Bytes → S → ℕ
  resends zero user now msg s = 0
  resends (suc n) user now msg s =
      let (sent, s') = dispatch_message redis user false (now n) msg s in
      (if sent then 1 else 0) + resends n user now msg s'

  -- However many rounds there are, the retry loop sends a message at most five times less the attempts it
  -- already has.
  pub resends_bounded :
      (n : ℕ) (user : Bytes) (now : ℕ → ℕ) (msg : Bytes) (s : S)
      → resends n user now msg s ≤ retry_max_attempts - attempts redis laws user msg s
  unfolding resends
  resends_bounded zero user now msg s = omega arith
  resends_bounded (suc n) user now msg s =
      rw (resends, dispatch_message-cases redis laws user false (now n) msg s)
        (elim (Bool-cases (
          is_empty (msg_id_of msg)
          || (leb retry_max_attempts (attempts redis laws user msg s) && true))) [
            | inl e ↦ rw e (omega (arith, resends_bounded n user now msg s))
            | inr e ↦
                let low : attempts redis laws user msg s < retry_max_attempts = ground arith in
                let s' = resent redis laws user false (now n) msg s in
                rw e (
                  omega (
                    arith,
                    resends_bounded n user now msg s',
                    resent-attempts user (now n) msg s low,
                  ))
          ])

  -- What `n` rounds of the retry loop send to a user; a round starts at its time and may read the clock again.
  pub rounds : ℕ → Bytes → (ℕ → ℕ) → (ℕ → Bytes → ℕ) → S → List Bytes × S
  rounds zero user begun clocks s = ([], s)
  rounds (suc n) user begun clocks s =
      let (sent, s') = dispatch_due_messages_for_user redis user false (begun n) (clocks n) s in
      let (later, out) = rounds n user begun clocks s' in (sent ++ later, out)
