-- ===== src/RecvBuffer/Inv.antt =====
-- The invariant of the receive buffer, and its contents as a table read round the ring.
use linux.Base.{
  ℕ, ◌+◌, ◌%◌, ◌^◌, ◌≤◌, ◌<◌, ◌≡◌, refl, ◌∙◌, [], arith, Bytes, u64_mod, length, get_or, replicate,
  length-replicate,
}
use linux.Base.Bits.{bit_and_mask, pow_two_pos, pow_two_mono}
use linux.Base.Tabulate.{tabulate, length-tabulate}
use linux.RecvBuffer.{RecvBuffer, init, masked, next_power_of_two}
use linux.RecvBuffer.PowerOfTwo.{next_power_of_two_least}

-- The capacity is a power of two, the read position is inside it, and no more is stored than fits.
pub record IsValid (r : RecvBuffer) : Type 0 where
  pub exponent : ℕ
  pub exponent_le : exponent ≤ 63
  pub capacity : length r.buf ≡ 2 ^ exponent
  pub read_lt : r.read < length r.buf
  pub size_le : r.size ≤ length r.buf

-- The byte `i` places after the read position.
abbrev pub byte_at : Bytes → ℕ → ℕ → ℕ
byte_at buf read i = get_or buf ((read + i) % length buf) 0

-- What the buffer holds, oldest byte first.
abbrev pub contents : RecvBuffer → Bytes
contents r = tabulate r.size (byte_at r.buf r.read)

pub length-contents : (r : RecvBuffer) → length (contents r) ≡ r.size
length-contents r = length-tabulate r.size (byte_at r.buf r.read)

-- In a valid buffer the mask is the remainder by the capacity, for positions that do not wrap.
pub masked-mod :
    {r : RecvBuffer} → IsValid r → (x : ℕ) → x < u64_mod → masked r.buf x ≡ x % length r.buf
masked-mod {r} v x h =
    let word : x % u64_mod ≡ x = omega arith in rw (v.capacity, word) (bit_and_mask v.exponent x)

pub small_capacity : {r : RecvBuffer} → IsValid r → (0 < length r.buf) × (length r.buf ≤ 2 ^ 63)
small_capacity v = (omega (arith, v.read_lt), rw v.capacity (pow_two_mono v.exponent_le))

-- A new buffer is valid and empty, if a power of two can hold the requested capacity.
pub init-IsValid :
    (n : ℕ) → n ≤ 2 ^ 63 → IsValid (init n) × (contents (init n) ≡ []) × (n ≤ length (init n).buf)
unfolding init
init-IsValid n h =
    let (k, le, eq, lo, hi) = next_power_of_two_least n h in
    let pos : 0 < 2 ^ k = pow_two_pos k in
    let cap : length (replicate (next_power_of_two n) 0) ≡ 2 ^ k =
      length-replicate (next_power_of_two n) 0 ∙ eq in
    (
      record {
        exponent = k;
        exponent_le = le;
        capacity = cap;
        read_lt = rw cap pos;
        size_le = omega arith;
      },
      refl,
      rw cap lo,
    )
