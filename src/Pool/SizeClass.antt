-- ===== src/Pool/SizeClass.antt =====
-- `SizeClass` of v2/include/Common.h: the size of a block and the index of its list.
use linux.Base.{ℕ, ◌+◌, ◌-◌, ◌*◌, ◌/◌, ◌%◌, ◌^◌, ◌≤◌, ◌<◌, max, bit_and, ◌≡◌, ◌∙◌, arith, u64_mod}
use linux.Base.Bits.{bit_and_step, bit_and_mask}

abbrev pub alignment : ℕ
alignment = 8

-- `~(ALIGNMENT - 1)` keeps all bits of a `size_t` but the lowest three.
pub round_up : ℕ → ℕ
round_up bytes = bit_and ((bytes + alignment - 1) % u64_mod) (u64_mod - 1 - (alignment - 1))

pub get_index : ℕ → ℕ
get_index bytes = ((max bytes alignment + alignment - 1) % u64_mod) / alignment - 1

clear_low : (n : ℕ) → n < u64_mod → bit_and n (2 ^ 64 - 8) ≡ n / 8 * 8
clear_low n h = omega (
  arith,
  bit_and_step n (2 ^ 64 - 8),
  bit_and_step (n / 2) (2 ^ 63 - 4),
  bit_and_step (n / 2 / 2) (2 ^ 62 - 2),
  bit_and_mask 61 (n / 2 / 2 / 2),
)

-- The list at the index of a request holds blocks of the smallest multiple of eight that fits it: for a
-- request of at least one byte, `roundUp` is eight times the index and one, and the request is at most eight
-- bytes less.
pub get_index-round_up :
    (bytes : ℕ)
    → 0 < bytes
    → bytes + 8 ≤ u64_mod
    → (round_up bytes ≡ (get_index bytes + 1) * alignment)
      × (bytes ≤ round_up bytes)
      × (round_up bytes < bytes + alignment)
unfolding round_up get_index
get_index-round_up bytes pos h =
    let cleared : bit_and ((bytes + 8 - 1) % u64_mod) (2 ^ 64 - 8) ≡ (bytes + 7) / 8 * 8 =
      clear_low ((bytes + 8 - 1) % u64_mod) (omega arith) ∙ omega arith in
    rw cleared (omega arith, omega arith, omega arith)
