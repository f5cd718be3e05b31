-- ===== src/Base/Bits.antt =====
-- Laws of the bit operations at variables: masks and disjoint unions as plain arithmetic.
use Prim.Native.Nat.{
  ℕ, zero, suc, ◌+◌, ◌-◌, ◌*◌, ◌/◌, ◌%◌, ◌^◌, ◌≤◌, ◌<◌, min, max, bit_and, bit_or, digits,
  bit_and-bitwise, bit_or-bitwise,
}
use mathlib.Core.Path.{◌≡◌, refl, sym, ap, ◌∙◌}
use native.Mathlib.Omega.{arith}
use native.Mathlib.Decide.{dec_lt}
use native.Mathlib.Nat.{
  pow-le-pow_right, mul-add-mod_self_left, mod-eq_of_lt, div-add-mod, mod-lt, mul-add-div,
  div-div-eq-div-mul, div-eq_of_lt,
}

-- With nothing left in the first number, any fuel gives the base.
digits_zero : (base : ℕ → ℕ) (op : ℕ → ℕ → ℕ) (fuel b : ℕ) → digits base op fuel 0 b ≡ base b
digits_zero base op zero b = refl
digits_zero base op (suc fuel) b = refl

-- Fuel that bounds the first number is enough, so that more of it changes nothing.
digits_enough :
    (base : ℕ → ℕ) (op : ℕ → ℕ → ℕ) (fuel a b more : ℕ)
    → a ≤ fuel
    → digits base op (fuel + more) a b ≡ digits base op fuel a b
digits_enough base op fuel zero b more h =
    digits_zero base op (fuel + more) b ∙ sym (digits_zero base op fuel b)
digits_enough base op zero (suc a) b more h = absurd (omega arith)
digits_enough base op (suc fuel) (suc a) b more h =
    let shift : suc fuel + more ≡ suc (fuel + more) = omega arith in
    rw (shift, digits_enough base op fuel (suc a / 2) (b / 2) more (omega arith)) refl

-- The fuel that `bit_and-bitwise` and `bit_or-bitwise` give to the half of a number.
half_fuel :
    (base : ℕ → ℕ) (op : ℕ → ℕ → ℕ) (a b : ℕ)
    → digits base op a (suc a / 2) (b / 2) ≡ digits base op (suc a / 2) (suc a / 2) (b / 2)
half_fuel base op a b =
    let split : suc a / 2 + (a - suc a / 2) ≡ a = omega arith in
    ap (λ n. digits base op n (suc a / 2) (b / 2)) (sym split)
    ∙ digits_enough base op (suc a / 2) (suc a / 2) (b / 2) (a - suc a / 2) (omega arith)

zero-bit_and : (b : ℕ) → bit_and 0 b ≡ 0
zero-bit_and b = bit_and-bitwise 0 b

pub zero-bit_or : (b : ℕ) → bit_or 0 b ≡ b
zero-bit_or b = bit_or-bitwise 0 b

pub bit_and_step : (a b : ℕ) → bit_and a b ≡ bit_and (a / 2) (b / 2) * 2 + min (a % 2) (b % 2)
bit_and_step zero b = let half = zero-bit_and (b / 2) in omega (arith, half, zero-bit_and b)
bit_and_step (suc a) b =
    let whole = bit_and-bitwise (suc a) b in
    let half = half_fuel (λ b. zero) min a b ∙ sym (bit_and-bitwise (suc a / 2) (b / 2)) in
    omega (arith, whole, half)

pub bit_or_step : (x y : ℕ) → bit_or x y ≡ bit_or (x / 2) (y / 2) * 2 + max (x % 2) (y % 2)
bit_or_step zero y = let half = zero-bit_or (y / 2) in omega (arith, half, zero-bit_or y)
bit_or_step (suc x) y =
    let whole = bit_or-bitwise (suc x) y in
    let half = half_fuel (λ b. b) max x y ∙ sym (bit_or-bitwise (suc x / 2) (y / 2)) in
    omega (arith, whole, half)

pub pow_two_suc : (k : ℕ) → 2 ^ suc k ≡ 2 * 2 ^ k
pow_two_suc k = omega arith

pub pow_two_pos : (k : ℕ) → 0 < 2 ^ k
pow_two_pos zero = omega arith
pow_two_pos (suc k) = omega (arith, pow_two_suc k, pow_two_pos k)

pub bit_and-zero : (a : ℕ) → bit_and a 0 ≡ 0
bit_and-zero a = bounded a a (omega arith)
  where
    bounded : (n a : ℕ) → a ≤ n → bit_and a 0 ≡ 0
    bounded n zero h = zero-bit_and 0
    bounded zero (suc a) h = absurd (omega arith)
    bounded (suc n) (suc a) h =
        omega (arith, bit_and_step (suc a) 0, bounded n (suc a / 2) (omega arith))

-- A quotient and a remainder below the divisor are the ones that `/` and `%` give.
pub mod_unique : (n m q r : ℕ) → n ≡ m * q + r → r < m → n % m ≡ r
mod_unique n m q r e h = rw (e, mul-add-mod_self_left) (mod-eq_of_lt h)

pub div_unique : (n m q r : ℕ) → n ≡ m * q + r → r < m → n / m ≡ q
div_unique n m q r e h =
    rw (e, mul-add-div {m = m} (omega arith) q r) (omega (arith, div-eq_of_lt {n = r} {m = m} h))

-- A mask of `k` ones keeps the value modulo `2 ^ k`.
pub bit_and_mask : (k a : ℕ) → bit_and a (2 ^ k - 1) ≡ a % 2 ^ k
bit_and_mask zero a = omega (arith, bit_and-zero a)
bit_and_mask (suc k) a =
    rw (pow_two_suc k) (doubled (2 ^ k) (pow_two_pos k) (bit_and_mask k (a / 2)))
  where
    doubled :
        (p : ℕ) → 0 < p → bit_and (a / 2) (p - 1) ≡ a / 2 % p → bit_and a (2 * p - 1) ≡ a % (2 * p)
    doubled p pos ih =
        let half : (2 * p - 1) / 2 ≡ p - 1 = omega arith in
        let low : (2 * p - 1) % 2 ≡ 1 = omega arith in
        let step : bit_and a (2 * p - 1) ≡ a / 2 % p * 2 + a % 2 =
          rw (bit_and_step a (2 * p - 1), half, low, ih) (omega arith) in
        let r : ℕ = a / 2 % p * 2 + a % 2 in
        rw (
          step,
          mod_unique a (2 * p) (a / 2 / p) r (omega (arith, div-add-mod (a / 2) p))
              (omega (arith, mod-lt (a / 2) pos)),
        )

-- A value below `2 ^ k` and a multiple of `2 ^ k` have no bit in common.
pub bit_or_disjoint : (k a g : ℕ) → a < 2 ^ k → bit_or a (g * 2 ^ k) ≡ a + g * 2 ^ k
bit_or_disjoint zero a g h = let e : a ≡ 0 = omega arith in rw (e, zero-bit_or) (omega arith)
bit_or_disjoint (suc k) a g h =
    rw (pow_two_suc k) (doubled (2 ^ k) (rw (pow_two_suc k) at h) (bit_or_disjoint k (a / 2) g))
  where
    doubled :
        (p : ℕ)
        → a < 2 * p
        → (a / 2 < p → bit_or (a / 2) (g * p) ≡ a / 2 + g * p)
        → bit_or a (g * (2 * p)) ≡ a + g * (2 * p)
    doubled p lt ih =
        let half : g * (2 * p) / 2 ≡ g * p = omega arith in
        let low : g * (2 * p) % 2 ≡ 0 = omega arith in
        rw (bit_or_step a (g * (2 * p)), half, low, ih (omega arith)) (omega arith)

pub bit_or-zero : (a : ℕ) → bit_or a 0 ≡ a
bit_or-zero a = bounded a a (omega arith)
  where
    bounded : (n a : ℕ) → a ≤ n → bit_or a 0 ≡ a
    bounded n zero h = zero-bit_or 0
    bounded zero (suc a) h = absurd (omega arith)
    bounded (suc n) (suc a) h =
        omega (arith, bit_or_step (suc a) 0, bounded n (suc a / 2) (omega arith))

pub bit_or_disjoint_left : (k a g : ℕ) → a < 2 ^ k → bit_or (g * 2 ^ k) a ≡ g * 2 ^ k + a
bit_or_disjoint_left zero a g h = let e : a ≡ 0 = omega arith in rw (e, bit_or-zero) (omega arith)
bit_or_disjoint_left (suc k) a g h =
    rw (pow_two_suc k)
      (doubled (2 ^ k) (rw (pow_two_suc k) at h) (bit_or_disjoint_left k (a / 2) g))
  where
    doubled :
        (p : ℕ)
        → a < 2 * p
        → (a / 2 < p → bit_or (g * p) (a / 2) ≡ g * p + a / 2)
        → bit_or (g * (2 * p)) a ≡ g * (2 * p) + a
    doubled p lt ih =
        let half : g * (2 * p) / 2 ≡ g * p = omega arith in
        let low : g * (2 * p) % 2 ≡ 0 = omega arith in
        rw (bit_or_step (g * (2 * p)) a, half, low, ih (omega arith)) (omega arith)

-- The test of bit `k` of a value below `2 ^ (k + 1)`.
pub bit_and_top : (k a : ℕ) → a < 2 ^ suc k → bit_and a (2 ^ k) ≡ a / 2 ^ k * 2 ^ k
bit_and_top zero a h = let low : bit_and a 1 ≡ a % 2 = bit_and_mask 1 a in omega arith
bit_and_top (suc k) a h = rw (pow_two_suc k) (
    doubled (2 ^ k) (pow_two_pos k)
      (bit_and_top k (a / 2) (omega (arith, pow_two_suc k, pow_two_suc (suc k)))))
  where
    doubled :
        (p : ℕ)
        → 0 < p
        → bit_and (a / 2) p ≡ a / 2 / p * p
        → bit_and a (2 * p) ≡ a / (2 * p) * (2 * p)
    doubled p pos ih =
        let half : 2 * p / 2 ≡ p = omega arith in
        let low : 2 * p % 2 ≡ 0 = omega arith in
        rw (bit_and_step a (2 * p), half, low, ih, div-div-eq-div-mul a 2 p) (omega arith)

pub pow_two_add : (m n : ℕ) → 2 ^ (m + n) ≡ 2 ^ m * 2 ^ n
pow_two_add zero n = let e : 0 + n ≡ n = omega arith in rw e (omega arith)
pow_two_add (suc m) n =
    let e : suc m + n ≡ suc (m + n) = omega arith in
    rw (e, pow_two_suc (m + n), pow_two_suc m, pow_two_add m n) (omega arith)

pub pow_two_mono : {m n : ℕ} → m ≤ n → 2 ^ m ≤ 2 ^ n
pow_two_mono h = pow-le-pow_right (omega arith) h

pub bit_or-lt : (k a b : ℕ) → a < 2 ^ k → b < 2 ^ k → bit_or a b < 2 ^ k
bit_or-lt zero a b ha hb =
    let ea : a ≡ 0 = omega arith in let eb : b ≡ 0 = omega arith in rw (ea, eb) (omega arith)
bit_or-lt (suc k) a b ha hb = omega (
  arith,
  pow_two_suc k,
  bit_or_step a b,
  bit_or-lt k (a / 2) (b / 2) (omega (arith, pow_two_suc k)) (omega (arith, pow_two_suc k)),
)

-- A shift to the right goes through the bit operations.
pub bit_or-div : (s a b : ℕ) → bit_or a b / 2 ^ s ≡ bit_or (a / 2 ^ s) (b / 2 ^ s)
bit_or-div zero a b =
    let ea : a / 1 ≡ a = omega arith in
    let eb : b / 1 ≡ b = omega arith in rw (ea, eb) (omega arith)
bit_or-div (suc s) a b =
    let half : bit_or a b / 2 ≡ bit_or (a / 2) (b / 2) = omega (arith, bit_or_step a b) in
    rw
      (
        pow_two_suc s,
        ← div-div-eq-div-mul (bit_or a b) 2 (2 ^ s),
        ← div-div-eq-div-mul a 2 (2 ^ s),
        ← div-div-eq-div-mul b 2 (2 ^ s),
        half,
      )
      (bit_or-div s (a / 2) (b / 2))

pub bit_and-div : (s a b : ℕ) → bit_and a b / 2 ^ s ≡ bit_and (a / 2 ^ s) (b / 2 ^ s)
bit_and-div zero a b =
    let ea : a / 1 ≡ a = omega arith in
    let eb : b / 1 ≡ b = omega arith in rw (ea, eb) (omega arith)
bit_and-div (suc s) a b =
    let half : bit_and a b / 2 ≡ bit_and (a / 2) (b / 2) = omega (arith, bit_and_step a b) in
    rw
      (
        pow_two_suc s,
        ← div-div-eq-div-mul (bit_and a b) 2 (2 ^ s),
        ← div-div-eq-div-mul a 2 (2 ^ s),
        ← div-div-eq-div-mul b 2 (2 ^ s),
        half,
      )
      (bit_and-div s (a / 2) (b / 2))

-- A union with a mask of `d` ones sets the low `d` bits.
pub bit_or_mask : (d x : ℕ) → bit_or x (2 ^ d - 1) ≡ x / 2 ^ d * 2 ^ d + (2 ^ d - 1)
bit_or_mask zero x = rw (bit_or-zero x) (omega arith)
bit_or_mask (suc d) x = rw (pow_two_suc d) (doubled (2 ^ d) (pow_two_pos d) (bit_or_mask d (x / 2)))
  where
    doubled :
        (p : ℕ)
        → 0 < p
        → bit_or (x / 2) (p - 1) ≡ x / 2 / p * p + (p - 1)
        → bit_or x (2 * p - 1) ≡ x / (2 * p) * (2 * p) + (2 * p - 1)
    doubled p pos ih =
        let half : (2 * p - 1) / 2 ≡ p - 1 = omega arith in
        let low : (2 * p - 1) % 2 ≡ 1 = omega arith in
        rw (bit_or_step x (2 * p - 1), half, low, ih, div-div-eq-div-mul x 2 p) (omega arith)

-- The place of the highest bit.
pub highest_bit : (k n : ℕ) → 0 < n → n < 2 ^ k → (e : ℕ) × (e < k) × (2 ^ e ≤ n) × (n < 2 ^ suc e)
highest_bit zero n pos h = absurd (omega arith)
highest_bit (suc k) n pos h = elim (dec_lt n (2 ^ k)) [
  | yes p ↦ let (e, lt, lo, hi) = highest_bit k n pos p in (e, omega arith, lo, hi)
  | no p ↦ (k, omega arith, omega arith, h)
]
