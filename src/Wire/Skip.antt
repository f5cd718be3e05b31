-- ===== src/Wire/Skip.antt =====
-- Where `readVarint` and `skipField` leave the position, on any input.
use linux.Base.{
  ℕ, ◌+◌, ◌-◌, ◌*◌, ◌%◌, ◌^◌, ◌≤◌, ◌<◌, bit_and, bit_or, ◌≡◌, refl, Bool, true, [], ◌∷◌, ◌++◌,
  arith, Bytes, u64_mod, length, drop, length-append, length-drop,
}
use linux.Base.Bits.{bit_or-lt}
use linux.Wire.{read_loop, read_varint, write_varint, skip_field, skip_bytes}
use linux.Wire.RoundTrip.{read_varint-write_varint}

-- What the loop leaves when it stops, started at `off` with the shift `7 * j`.
record Stopped (rest : Bytes) (off j : ℕ) (out : Bool × ℕ × ℕ) : Type 0 where
  forward : off ≤ out.1
  inside : out.1 ≤ off + length rest
  moved : out.0 ≡ true → off < out.1
  rounds : out.1 + j ≤ off + 10
  word : out.2 < u64_mod

read_loop-Stopped :
    (rest : Bytes) (off v shift j : ℕ)
    → shift ≡ 7 * j
    → j ≤ 10
    → v < u64_mod
    → Stopped rest off j (read_loop rest off v shift)
unfolding read_loop
read_loop-Stopped [] off v shift j hs hj hv = ground arith
read_loop-Stopped (b ∷ rest) off v shift j hs hj hv =
    let group = bit_and b 0x7f * 2 ^ shift % u64_mod in
    ground (
      arith,
      bit_or-lt 64 v group,
      read_loop-Stopped rest (off + 1) (bit_or v group) (shift + 7) (j + 1),
    )

-- On any bytes `readVarint` leaves the position in the input, at most ten bytes further on; it moves
-- when it succeeds, and its value is a `uint64_t`.
pub read_varint_bounds :
    (in_ : Bytes) (off : ℕ)
    → off ≤ length in_
    → (off ≤ (read_varint in_ off).1)
      × ((read_varint in_ off).1 ≤ length in_)
      × ((read_varint in_ off).1 ≤ off + 10)
      × ((read_varint in_ off).0 ≡ true → off < (read_varint in_ off).1)
      × ((read_varint in_ off).2 < u64_mod)
unfolding read_varint
read_varint_bounds in_ off h =
    let s = read_loop-Stopped (drop off in_) off 0 0 0 refl (omega arith) (omega arith) in
    (
      s.forward,
      omega (arith, length-drop off in_, s.inside),
      omega (arith, s.rounds),
      s.moved,
      s.word,
    )

-- `skipField` steps exactly over a length-delimited field whose length `writeVarint` wrote, if the
-- whole input is shorter than `2 ^ 64` bytes.
pub skip_field-write_varint :
    (pre s rest : Bytes)
    → length (write_varint (length s) pre ++ (s ++ rest)) < u64_mod
    → skip_field 2 (write_varint (length s) pre ++ (s ++ rest)) (length pre)
      ≡ (true, length (write_varint (length s) pre) + length s)
unfolding skip_field
skip_field-write_varint pre s rest h =
    let head = write_varint (length s) pre in
    let whole : length (head ++ (s ++ rest)) ≡ length head + (length s + length rest) =
      omega (arith, length-append head (s ++ rest), length-append s rest) in
    rw (read_varint-write_varint (length s) pre (s ++ rest) (omega arith), skip_bytes)
      (ground arith)

-- The length check adds in `size_t`: a length of `2 ^ 64 - n` passes it and moves the position back
-- by `n` bytes, for every `n` from 1 to the position behind the length.
pub skip_field_backwards :
    (pre rest : Bytes) (n : ℕ)
    → 0 < n
    → n ≤ length (write_varint (u64_mod - n) pre)
    → length (write_varint (u64_mod - n) pre ++ rest) < u64_mod
    → skip_field 2 (write_varint (u64_mod - n) pre ++ rest) (length pre)
      ≡ (true, length (write_varint (u64_mod - n) pre) - n)
unfolding skip_field
skip_field_backwards pre rest n hn le h =
    let head = write_varint (u64_mod - n) pre in
    let whole : length (head ++ rest) ≡ length head + length rest = length-append head rest in
    rw (read_varint-write_varint (u64_mod - n) pre rest (omega arith), skip_bytes) (ground arith)
