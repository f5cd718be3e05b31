-- ===== src/Wire.antt =====
-- The `pb` namespace of EpollChatServer.cpp: varints, keys, strings and the skipping of a field.
-- A position that a C++ function takes by reference is an argument and part of the result.
pub mod Shape
pub mod RoundTrip
pub mod Skip
use linux.Base.{
  ℕ, ◌+◌, ◌*◌, ◌/◌, ◌%◌, ◌^◌, ◌≤◌, ◌<◌, bit_and, bit_or, Bool, true, false, [], ◌∷◌, ◌++◌, arith,
  Bytes, u64_mod, ltb, leb, ◌==◌, if◌then◌else◌, length, drop,
}
use linux.Base.Order.{lt_wf}
use mathlib.Core.Logic.{dite}
use mathlib.Core.WellFounded.{Acc}
use native.Mathlib.Decide.{dec_le}

shift_shrinks : (v : ℕ) → 0x80 ≤ v → v / 2 ^ 7 < v
shift_shrinks v h = omega arith

-- `while (v >= 0x80) { push((v & 0x7F) | 0x80); v >>= 7; } push(v)`
write_loop : (v : ℕ) → Acc ◌<◌ v → Bytes → Bytes
write_loop v (Acc.intro _ smaller) out =
    dite (dec_le 0x80 v)
      (λ more.
        write_loop (v / 2 ^ 7) (smaller (v / 2 ^ 7) (shift_shrinks v more))
          (out ++ bit_or (bit_and v 0x7f) 0x80 ∷ []))
      (λ _. out ++ v ∷ [])

pub write_varint : ℕ → Bytes → Bytes
write_varint v out = write_loop v (lt_wf.apply v) out

-- The list is what the loop has not read, `in[off..]`; the result is the answer, `off` and `v`.
unfoldable pub read_loop : Bytes → ℕ → ℕ → ℕ → Bool × ℕ × ℕ
read_loop [] off v shift = (false, off, v)
read_loop (b ∷ rest) off v shift =
    let v' = bit_or v (bit_and b 0x7f * 2 ^ shift % u64_mod) in
    let more = read_loop rest (off + 1) v' (shift + 7) in
    if leb shift 63
    then if bit_and b 0x80 == 0 then (true, off + 1, v') else more
    else (false, off, v)

unfoldable pub read_varint : Bytes → ℕ → Bool × ℕ × ℕ
read_varint in_ off = read_loop (drop off in_) off 0 0

unfoldable pub write_key : ℕ → ℕ → Bytes → Bytes
write_key field_no wire_type out = write_varint (bit_or (field_no * 2 ^ 3 % u64_mod) wire_type) out

unfoldable pub write_string : ℕ → Bytes → Bytes → Bytes
unfolding write_key
write_string field_no s out = write_varint (length s) (write_key field_no 2 out) ++ s

unfoldable pub write_uint64 : ℕ → ℕ → Bytes → Bytes
unfolding write_key
write_uint64 field_no v out = write_varint v (write_key field_no 0 out)

-- The length-delimited branch of `skipField`, from the answer of `readVarint` on.
-- Additions are those of `size_t`.
skip_bytes : Bytes → Bool × ℕ × ℕ → Bool × ℕ
skip_bytes in_ (false, off, len) = (false, off)
skip_bytes in_ (true, off, len) =
    if ltb (length in_) ((off + len) % u64_mod) then (false, off) else (true, (off + len) % u64_mod)

-- The answer, and `off` after the call.
unfoldable pub skip_field : ℕ → Bytes → ℕ → Bool × ℕ
unfolding skip_bytes
skip_field wt in_ off =
    if wt == 0
    then ((read_varint in_ off).0, (read_varint in_ off).1)
    else if wt == 2
    then skip_bytes in_ (read_varint in_ off)
    else (false, off)
