-- ===== src/RecvBuffer/PowerOfTwo.antt =====
-- `nextPowerOfTwo`: the smearing of the highest bit gives the least power of two that is large enough.
use linux.Base.{
  ℕ, zero, suc, ◌+◌, ◌-◌, ◌*◌, ◌/◌, ◌^◌, ◌≤◌, ◌<◌, max, bit_and, ◌≡◌, ap, ◌∙◌, inl, inr, false,
  arith, leb, ◌==◌, if◌then◌else◌, ==_iff, Bool-cases,
}
use linux.Base.Bits.{
  bit_or-lt, bit_or-div, bit_and-div, bit_or_mask, bit_or-zero, pow_two_add, pow_two_mono,
  pow_two_pos, pow_two_suc, highest_bit, div_unique,
}
use linux.RecvBuffer.{or_shift, smear, round_up, next_power_of_two}
use native.Mathlib.Decide.{dec_le, ℕ_discrete}
use native.Mathlib.Nat.{suc-mul, div-div-eq-div-mul, div-eq_of_lt, div-le_self, mul-div-le}

-- `m` has `e` bits, of which the highest `j` are set.
abbrev Ones : ℕ → ℕ → ℕ → Type 0
Ones j e m = (m < 2 ^ e) × (2 ^ e ≤ m + 2 ^ (e - j))

div-ones : (t d m : ℕ) → m < 2 ^ (t + d) → 2 ^ (t + d) ≤ m + 2 ^ t → m / 2 ^ t ≡ 2 ^ d - 1
div-ones t d m lt le =
    go (2 ^ t) (2 ^ d) (pow_two_pos d) (rw (pow_two_add t d) at lt) (rw (pow_two_add t d) at le)
  where
    go : (p q : ℕ) → 0 < q → m < p * q → p * q ≤ m + p → m / p ≡ q - 1
    go p (suc q) pos h g = omega (arith, div_unique m p q (m - p * q) (omega arith) (omega arith))
    go p zero pos h g = absurd (omega arith)

-- Quotients that hold the highest bits bound the value from below.
above : (s j d n : ℕ) → 0 < j → 0 < d → n / s ≡ (j - 1) * d + (d - 1) → s * (j * d) ≤ n + s
above s (suc j) d n hj hd e =
    let j_less : suc j - 1 ≡ j = omega arith in
    let q : suc j * d ≡ n / s + 1 = rw (e, j_less, suc-mul) (omega arith) in
    rw q (omega (arith, mul-div-le n s))
above s zero d n hj hd e = absurd (omega arith)

or_shift_near :
    (s j d m : ℕ)
    → m < 2 ^ (s + j + d)
    → m / 2 ^ (j + s) ≡ 2 ^ d - 1
    → m / 2 ^ (s + d) ≡ 2 ^ j - 1
    → 2 ^ s * (2 ^ j * 2 ^ d) ≤ or_shift j m + 2 ^ s
or_shift_near s j d m lt low high =
    above (2 ^ s) (2 ^ j) (2 ^ d) (or_shift j m) (pow_two_pos j) (pow_two_pos d) (
      rw (
        bit_or-div s m (m / 2 ^ j),
        div-div-eq-div-mul m (2 ^ j) (2 ^ s),
        ← pow_two_add j s,
        low,
        bit_or_mask d (m / 2 ^ s),
        div-div-eq-div-mul m (2 ^ s) (2 ^ d),
        ← pow_two_add s d,
        high,
      ))

-- One round doubles the number of high bits that are known to be set.
or_shift-Ones : (j e m : ℕ) → Ones j e m → Ones (j + j) e (or_shift j m)
or_shift-Ones j e m (lt, le) = elim (dec_le j e) [
  | no p ↦
      let gone : m / 2 ^ j ≡ 0 =
        div-eq_of_lt (omega (arith, pow_two_mono {m = e} {n = j} (omega arith))) in
      let a : e - j ≡ 0 = omega arith in
      let b : e - (j + j) ≡ 0 = omega arith in rw (gone, bit_or-zero m, b) (lt, rw a at le)
  | yes p ↦
      let s : ℕ = e - (j + j) in
      let d : ℕ = e - j - s in
      let at_low : j + s + d ≡ e = omega arith in
      let at_high : s + d + j ≡ e = omega arith in
      let rest : e - j ≡ s + d = omega arith in
      let below : 2 ^ (e - j) ≤ 2 ^ (j + s) = pow_two_mono (omega arith) in
      let low : m / 2 ^ (j + s) ≡ 2 ^ d - 1 =
        div-ones (j + s) d m (rw at_low lt) (rw at_low (omega arith)) in
      let high : m / 2 ^ (s + d) ≡ 2 ^ j - 1 =
        div-ones (s + d) j m (rw at_high lt) (rw (at_high, ← rest) le) in
      let split : 2 ^ e ≡ 2 ^ s * (2 ^ j * 2 ^ d) =
        rw (← pow_two_add j d, ← pow_two_add s (j + d)) (ap (λ k. 2 ^ k) (omega arith)) in
      (
        bit_or-lt e m (m / 2 ^ j) lt (omega (arith, div-le_self m (2 ^ j))),
        rw split (or_shift_near s j d m (rw (split_exponent s j d e at_low) lt) low high),
      )
]
  where
    split_exponent : (s j d e : ℕ) → j + s + d ≡ e → s + j + d ≡ e
    split_exponent s j d e h = omega arith

-- All bits below the highest one are set in the end.
smear-ones : (e m : ℕ) → e < 64 → 2 ^ e ≤ m → m < 2 ^ suc e → smear m ≡ 2 ^ suc e - 1
unfolding smear
smear-ones e m he lo hi =
    let less : suc e - 1 ≡ e = omega arith in
    let start : Ones 1 (suc e) m = (hi, rw less (omega (arith, pow_two_suc e))) in
    let m1 = or_shift 1 m in
    let m2 = or_shift 2 m1 in
    let m4 = or_shift 4 m2 in
    let m8 = or_shift 8 m4 in
    let m16 = or_shift 16 m8 in
    let all : Ones 64 (suc e) (or_shift 32 m16) = or_shift-Ones 32 (suc e) m16 (
      or_shift-Ones 16 (suc e) m8 (
        or_shift-Ones 8 (suc e) m4 (
          or_shift-Ones 4 (suc e) m2
            (or_shift-Ones 2 (suc e) m1 (or_shift-Ones 1 (suc e) m start))))) in
    let none_left : suc e - 64 ≡ 0 = omega arith in
    let whole : 2 ^ suc e ≤ or_shift 32 m16 + 2 ^ 0 = rw none_left at all.1 in
    omega (arith, all.0, whole)

-- A number that has no bit in common with its predecessor is its highest bit.
single_bit : (e n : ℕ) → 2 ^ e ≤ n → n < 2 ^ suc e → bit_and n (n - 1) ≡ 0 → n ≡ 2 ^ e
single_bit e n lo hi h = elim (ℕ_discrete n (2 ^ e)) [
  | yes p ↦ p
  | no p ↦
      let one : (x : ℕ) → 2 ^ e ≤ x → x < 2 ^ suc e → x / 2 ^ e ≡ 1 =
        λ x a b. div_unique x (2 ^ e) 1 (x - 2 ^ e) (omega arith) (omega (arith, pow_two_suc e)) in
      let both : bit_and n (n - 1) / 2 ^ e ≡ 1 =
        rw (bit_and-div e n (n - 1), one n lo hi, one (n - 1) (omega arith) (omega arith)) in
      absurd (omega (arith, rw h at both, div-eq_of_lt {n = 0} {m = 2 ^ e} (pow_two_pos e)))
]

round_up_least :
    (n : ℕ)
    → 0 < n
    → n ≤ 2 ^ 63
    → (k : ℕ) × (k ≤ 63) × (round_up n ≡ 2 ^ k) × (n ≤ 2 ^ k) × (2 ^ k < 2 * n)
unfolding round_up
round_up_least n pos le = elim (Bool-cases (bit_and n (n - 1) == 0)) [
  | inl e ↦
      let (k, lt, lo, hi) = highest_bit 64 n pos (omega arith) in
      let eq : n ≡ 2 ^ k = single_bit k n lo hi ((==_iff _ 0).0 e) in
      (k, omega arith, rw e eq, omega arith, omega arith)
  | inr e ↦
      let (k, lt, lo, hi) = highest_bit 63 (n - 1) (not_one n pos e) (omega arith) in
      let bound : 2 ^ suc k ≤ 2 ^ 63 = pow_two_mono lt in
      let ones : smear (n - 1) ≡ 2 ^ suc k - 1 = smear-ones k (n - 1) (omega arith) lo hi in
      (suc k, lt, rw (e, ones) (omega arith), omega arith, omega (arith, pow_two_suc k))
]
  where
    not_one : (n : ℕ) → 0 < n → (bit_and n (n - 1) == 0) ≡ false → 0 < n - 1
    not_one zero pos e = absurd (omega arith)
    not_one (suc zero) pos e = cc
    not_one (suc (suc n)) pos e = omega arith

-- For a request that a power of two below `2 ^ 64` can hold, `nextPowerOfTwo` returns a power of two
-- that holds it, and the least one: half of it does not.
pub next_power_of_two_least :
    (x : ℕ)
    → x ≤ 2 ^ 63
    → (k : ℕ) × (k ≤ 63) × (next_power_of_two x ≡ 2 ^ k) × (x ≤ 2 ^ k) × (2 ^ k < 2 * max 1 x)
unfolding next_power_of_two
next_power_of_two_least x h =
    let same : (if leb x 1 then 1 else x) ≡ max 1 x = ground arith in
    let (k, le, eq, lo, hi) = round_up_least (max 1 x) (omega arith) (omega arith) in
    (k, le, ap round_up same ∙ eq, omega arith, hi)
