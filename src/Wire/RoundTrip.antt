-- ===== src/Wire/RoundTrip.antt =====
-- `readVarint` after `writeVarint`, at any place of a longer text.
use linux.Base.{
  ℕ, zero, suc, ◌+◌, ◌*◌, ◌/◌, ◌%◌, ◌^◌, ◌≤◌, ◌<◌, bit_and, bit_or, ◌≡◌, ap, ◌∙◌, inl, inr, true,
  [], ◌∷◌, ◌++◌, append_assoc, arith, Bytes, u64_mod, ltb, ◌==◌, ltb→lt, lt→ltb, Bool-cases, length,
  length-append, drop_prefix,
}
use linux.Base.Bits.{pow_two_add, bit_and_mask, bit_or_disjoint, bit_or_disjoint_left, bit_and_top}
use linux.Wire.{read_loop, read_varint, write_varint}
use linux.Wire.Shape.{digits, write_varint-digits}

-- One more group on top of a value below `2 ^ shift`, where the sum fits.
pub add_group :
    (b v shift : ℕ)
    → v < 2 ^ shift
    → v + b % 128 * 2 ^ shift < u64_mod
    → bit_or v (bit_and b 0x7f * 2 ^ shift % u64_mod) ≡ v + b % 128 * 2 ^ shift
add_group b v shift lt fits =
    let low : bit_and b 0x7f ≡ b % 128 = bit_and_mask 7 b in
    let whole : b % 128 * 2 ^ shift % u64_mod ≡ b % 128 * 2 ^ shift = omega arith in
    rw (low, whole) (bit_or_disjoint shift v (b % 128) lt)

pub top_bit : (b : ℕ) → b < 256 → (bit_and b 0x80 == 0) ≡ ltb b 128
top_bit b h = ground (arith, bit_and_top 7 b)

last_byte :
    (w off v shift : ℕ) (rest : Bytes)
    → w < 128
    → shift ≤ 63
    → v < 2 ^ shift
    → v + w * 2 ^ shift < u64_mod
    → read_loop (w ∷ rest) off v shift ≡ (true, off + 1, v + w * 2 ^ shift)
unfolding read_loop
last_byte w off v shift rest hw hs hv fits =
    let low : w % 128 ≡ w = omega arith in
    let sum : bit_or v (bit_and w 0x7f * 2 ^ shift % u64_mod) ≡ v + w * 2 ^ shift =
      rw low at (add_group w v shift hv (rw low fits)) in
    ground (arith, sum, top_bit w)

inner_byte :
    (g off v shift : ℕ) (rest : Bytes)
    → g < 128
    → shift ≤ 63
    → v < 2 ^ shift
    → v + g * 2 ^ shift < u64_mod
    → read_loop ((g + 128) ∷ rest) off v shift
      ≡ read_loop rest (off + 1) (v + g * 2 ^ shift) (shift + 7)
unfolding read_loop
inner_byte g off v shift rest hg hs hv fits =
    let low : (g + 128) % 128 ≡ g = omega arith in
    let sum : bit_or v (bit_and (g + 128) 0x7f * 2 ^ shift % u64_mod) ≡ v + g * 2 ^ shift =
      rw low at (add_group (g + 128) v shift hv (rw low fits)) in
    rw sum (ground (arith, top_bit (g + 128)))

-- A group has seven bits.
group_width : (s : ℕ) → 2 ^ (s + 7) ≡ 2 ^ s * 128
group_width s = pow_two_add s 7

-- The lowest group of `w` and the groups above it, both shifted by `s`.
split_group : (w s : ℕ) → w * 2 ^ s ≡ w % 128 * 2 ^ s + w / 128 * 2 ^ (s + 7)
split_group w s = rw (group_width s) (at_place (2 ^ s))
  where
    at_place : (place : ℕ) → w * place ≡ w % 128 * place + w / 128 * (place * 128)
    at_place place =
        let parts : w ≡ w % 128 + w / 128 * 128 = omega arith in
        ap (λ (n : ℕ). n * place) parts ∙ omega arith

next_bound : (v g s : ℕ) → v < 2 ^ s → g < 128 → v + g * 2 ^ s < 2 ^ (s + 7)
next_bound v g s hv hg = rw (group_width s) (product (2 ^ s) hv)
  where
    product : (p : ℕ) → v < p → v + g * p < p * 128
    product p h = grind arith

read_loop-digits :
    (k w off v shift : ℕ) (rest : Bytes)
    → w < 128 ^ suc k
    → shift + 7 * k ≤ 63
    → v < 2 ^ shift
    → v + w * 2 ^ shift < u64_mod
    → read_loop (digits k w ++ rest) off v shift
      ≡ (true, off + length (digits k w), v + w * 2 ^ shift)
unfolding digits
read_loop-digits zero w off v shift rest hw hs hv fits =
    last_byte w off v shift rest hw (omega arith) hv fits
read_loop-digits (suc k) w off v shift rest hw hs hv fits = elim (Bool-cases (ltb w 128)) [
  | inl e ↦ rw e (last_byte w off v shift rest (ltb→lt w 128 e) (omega arith) hv fits)
  | inr e ↦
      let split : w * 2 ^ shift ≡ w % 128 * 2 ^ shift + w / 128 * 2 ^ (shift + 7) =
        split_group w shift in
      rw
        (
          e,
          inner_byte (w % 128) off v shift (digits k (w / 128) ++ rest) (omega arith) (omega arith)
              hv (omega arith),
        )
        (ground (
          arith,
          read_loop-digits k (w / 128) (off + 1) (v + w % 128 * 2 ^ shift) (shift + 7) rest
              (omega arith) (omega arith) (next_bound v (w % 128) shift hv (omega arith))
              (omega arith),
        ))
]

-- The same with the digits in place of `writeVarint`.
pub read_varint-digits :
    (v : ℕ) (pre rest : Bytes)
    → v < u64_mod
    → read_varint (pre ++ (digits 9 v ++ rest)) (length pre)
      ≡ (true, length pre + length (digits 9 v), v)
unfolding read_varint
read_varint-digits v pre rest h = rw (drop_prefix pre (digits 9 v ++ rest)) (
    ground (
      arith,
      read_loop-digits 9 v (length pre) 0 0 rest (omega arith) (omega arith) (omega arith)
          (omega arith),
    ))

-- `readVarint` at the place where `writeVarint` appended a value below 2^64, whatever stands before and behind it,
-- returns the value and moves past it, no further.
pub read_varint-write_varint :
    (v : ℕ) (pre rest : Bytes)
    → v < u64_mod
    → read_varint (write_varint v pre ++ rest) (length pre) ≡ (true, length (write_varint v pre), v)
read_varint-write_varint v pre rest h =
    rw
      (
        write_varint-digits v pre h,
        append_assoc pre (digits 9 v) rest,
        length-append pre (digits 9 v),
      )
      (read_varint-digits v pre rest h)

pub digits_small : (v : ℕ) → v < 128 → digits 9 v ≡ v ∷ []
unfolding digits
digits_small v h = rw (lt→ltb v 128 h)

-- A key of a field below 2 ^ 29 holds the field's number over the wire type.
pub key_byte :
    (field wt : ℕ) → field < 2 ^ 29 → wt < 8 → bit_or (field * 2 ^ 3 % u64_mod) wt ≡ field * 8 + wt
key_byte field wt h hw =
    let whole : field * 2 ^ 3 % u64_mod ≡ field * 2 ^ 3 = omega arith in
    rw whole (bit_or_disjoint_left 3 wt field hw)
