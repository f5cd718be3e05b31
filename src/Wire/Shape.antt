-- ===== src/Wire/Shape.antt =====
-- What `writeVarint` writes, in plain arithmetic.
use linux.Base.{
  ℕ, zero, suc, ◌+◌, ◌/◌, ◌%◌, ◌^◌, ◌≤◌, ◌<◌, bit_and, bit_or, ◌≡◌, [], ◌∷◌, ◌++◌, append_assoc,
  arith, Bytes, u64_mod, ltb, if◌then◌else◌, length,
}
use linux.Base.Bits.{bit_and_mask, bit_or_disjoint}
use linux.Base.Order.{lt_wf}
use native.Mathlib.Decide.{dec_le}
use linux.Wire.{shift_shrinks, write_loop, write_varint}
use mathlib.Core.Logic.{dif_pos}
use native.Mathlib.Bridge.{le_prop}
use mathlib.Core.WellFounded.{Acc}

-- The base-128 digits of `v` below `128 ^ (k + 1)`, lowest first, the top bit set on all but the last.
unfoldable pub digits : ℕ → ℕ → Bytes
digits zero v = v ∷ []
digits (suc k) v =
    let rest = digits k (v / 128) in if ltb v 128 then v ∷ [] else (v % 128 + 128) ∷ rest

pub group_byte : (v : ℕ) → bit_or (bit_and v 0x7f) 0x80 ≡ v % 128 + 128
group_byte v =
    let low : bit_and v 0x7f ≡ v % 128 = bit_and_mask 7 v in
    rw low (bit_or_disjoint 7 (v % 128) 1 (omega arith))

write_loop-digits :
    (k v : ℕ) (w : Acc ◌<◌ v) (out : Bytes)
    → v < 128 ^ suc k
    → write_loop v w out ≡ out ++ digits k v
unfolding write_loop digits
write_loop-digits zero v (Acc.intro _ smaller) out h = ground arith
write_loop-digits (suc k) v (Acc.intro _ smaller) out h = elim (dec_le 0x80 v) [
  | yes more ↦
      rw (dif_pos (dec_le 0x80 v) le_prop more, group_byte v)
        (ground (
          arith,
          write_loop-digits k (v / 128) (smaller (v / 128) (shift_shrinks v more))
              (out ++ (v % 128 + 128) ∷ []) (omega arith),
          append_assoc out ((v % 128 + 128) ∷ []) (digits k (v / 128)),
        ))
  | no last ↦ ground arith
]

-- `writeVarint` appends the base-128 digits of a `uint64_t`, ten at most.
pub write_varint-digits :
    (v : ℕ) (out : Bytes) → v < u64_mod → write_varint v out ≡ out ++ digits 9 v
unfolding write_varint
write_varint-digits v out h = write_loop-digits 9 v (lt_wf.apply v) out (omega arith)

pub length-digits : (k v : ℕ) → (1 ≤ length (digits k v)) × (length (digits k v) ≤ k + 1)
unfolding digits
length-digits zero v = omega arith
length-digits (suc k) v = ground (arith, length-digits k (v / 128))
