-- ===== src/RecvBuffer/Write.antt =====
-- `append` adds bytes behind the contents, in place or in a larger storage.
use linux.Base.{
  ℕ, ◌+◌, ◌-◌, ◌%◌, ◌≤◌, ◌<◌, min, ◌≡◌, ap, ◌∙◌, ◌⊎◌, inl, inr, true, false, arith, Bytes, ltb,
  lt→ltb, length, get_or, take, drop, length-take, length-drop, take_all, get_or-take, get_or-drop,
}
use linux.RecvBuffer.{copy_in, copy_round}
use linux.RecvBuffer.Inv.{byte_at}
use linux.RecvBuffer.Refine.{index_before, index_after}
use linux.RecvBuffer.Copy.{length-copy_in, copy_in_before, copy_in_inside, copy_in_after}
use native.Mathlib.Nat.{mod-eq_of_lt, mod-eq-sub-mod, mod-lt}
use native.Mathlib.Decide.{dec_lt, dec_le}

-- One position round the ring, before and after the end of the storage.
round_index :
    (cap a : ℕ) → a < cap + cap → ((a < cap) × (a % cap ≡ a)) ⊎ ((cap ≤ a) × (a % cap ≡ a - cap))
round_index cap a h = elim (dec_lt a cap) [
  | yes p ↦ inl (p, mod-eq_of_lt p)
  | no p ↦
      inr (omega arith, mod-eq-sub-mod {n = a} {m = cap} (omega arith) ∙ mod-eq_of_lt (omega arith))
]

-- What a storage of the same size has to hold after `src` was written behind `size` bytes.
pub record Written (buf : Bytes) (read size : ℕ) (src out : Bytes) : Type 0 where
  pub same_size : length out ≡ length buf
  pub kept : (i : ℕ) → i < size → byte_at out read i ≡ byte_at buf read i
  pub added : (i : ℕ) → i < length src → byte_at out read (size + i) ≡ get_or src i 0

module _ (buf : Bytes) (read size : ℕ) (src : Bytes) (inside : read < length buf)
    (room : size + length src ≤ length buf) where
  abbrev pos : ℕ
  pos = (read + size) % length buf

  pos_lt : pos < length buf
  pos_lt = mod-lt (read + size) (omega arith)

  -- A byte of the contents read from a storage in which its place has not changed.
  same_byte :
      (out : Bytes) (i : ℕ)
      → length out ≡ length buf
      → get_or out ((read + i) % length buf) 0 ≡ get_or buf ((read + i) % length buf) 0
      → byte_at out read i ≡ byte_at buf read i
  same_byte out i e h = rw e h

  new_byte :
      (out : Bytes) (i k : ℕ)
      → length out ≡ length buf
      → (read + (size + i)) % length buf ≡ k
      → get_or out k 0 ≡ get_or src i 0
      → byte_at out read (size + i) ≡ get_or src i 0
  new_byte out i k e ek h = rw (e, ek) h

  regroup : (i : ℕ) → read + (size + i) ≡ read + size + i
  regroup i = omega arith

  in_place : pos + length src ≤ length buf → Written buf read size src (copy_in buf pos src)
  in_place fits = record {
    same_size = len;
    kept = λ i h. same_byte (copy_in buf pos src) i len (old i h);
    added = λ i h.
        new_byte (copy_in buf pos src) i (pos + i) len
          (rw (regroup i) (index_before (length buf) (read + size) i (omega arith)))
          (copy_in_inside buf pos src fits i h);
  }
    where
      len : length (copy_in buf pos src) ≡ length buf
      len = length-copy_in buf pos src fits

      old :
          (i : ℕ)
          → i < size
          → get_or (copy_in buf pos src) ((read + i) % length buf) 0
            ≡ get_or buf ((read + i) % length buf) 0
      old i h =
          let a = round_index (length buf) (read + i) (omega arith) in
          let b = round_index (length buf) (read + size) (omega arith) in
          elim (dec_lt ((read + i) % length buf) pos) [
            | yes q ↦ copy_in_before buf pos src fits ((read + i) % length buf) q
            | no q ↦ copy_in_after buf pos src fits ((read + i) % length buf) (omega arith)
          ]

  abbrev n : ℕ
  n = length buf - pos

  split_round :
      length buf - pos < length src
      → Written buf read size src (copy_in (copy_in buf pos (take n src)) 0 (drop n src))
  split_round over = record {
    same_size = len;
    kept = λ i h. same_byte out i len (old i h);
    added = λ i h. elim (dec_lt i n) [
      | yes q ↦
          new_byte out i (pos + i) len
            (rw (regroup i) (index_before (length buf) (read + size) i (omega (arith, pos_lt))))
            (copy_in_after one 0 (drop n src) fits_two (pos + i) (omega (arith, second, pos_lt))
              ∙ copy_in_inside buf pos (take n src) fits_one i (omega (arith, first))
              ∙ get_or-take n src i 0 q)
      | no q ↦
          new_byte out i (0 + (i - n)) len
            (rw (regroup i) (
              index_after (length buf) (read + size) i (omega (arith, pos_lt))
                (omega (arith, pos_lt))
              ∙ omega (arith, pos_lt)))
            (copy_in_inside one 0 (drop n src) fits_two (i - n) (omega (arith, second))
              ∙ get_or-drop n src (i - n) 0
              ∙ ap (λ k. get_or src k 0) (omega arith))
    ];
  }
    where
      first : length (take n src) ≡ n
      first = omega (arith, length-take n src)

      second : length (drop n src) ≡ length src - n
      second = length-drop n src

      fits_one : pos + length (take n src) ≤ length buf
      fits_one = omega (arith, first, pos_lt)

      one : Bytes
      one = copy_in buf pos (take n src)

      len_one : length one ≡ length buf
      len_one = length-copy_in buf pos (take n src) fits_one

      fits_two : 0 + length (drop n src) ≤ length one
      fits_two = omega (arith, second, len_one)

      out : Bytes
      out = copy_in one 0 (drop n src)

      len : length out ≡ length buf
      len = length-copy_in one 0 (drop n src) fits_two ∙ len_one

      old :
          (i : ℕ)
          → i < size
          → get_or out ((read + i) % length buf) 0 ≡ get_or buf ((read + i) % length buf) 0
      old i h =
          let a = round_index (length buf) (read + i) (omega arith) in
          let b = round_index (length buf) (read + size) (omega arith) in
          copy_in_after one 0 (drop n src) fits_two ((read + i) % length buf)
            (omega (arith, second))
          ∙ copy_in_before buf pos (take n src) fits_one ((read + i) % length buf) (omega arith)

  -- The two copies of `append` write the new bytes behind the old ones and change none of those.
  pub copy_round-Written : Written buf read size src (copy_round buf pos src)
  unfolding copy_round
  copy_round-Written = elim (dec_le (length src) (length buf - pos)) [
    | yes p ↦
        let whole : min (length src) (length buf - pos) ≡ length src = omega arith in
        let done : ltb (length src) (length src) ≡ false = ground arith in
        rw (whole, done, take_all (length src) src (omega arith)) (in_place (omega (arith, pos_lt)))
    | no p ↦
        let part : min (length src) (length buf - pos) ≡ n = omega arith in
        let more : ltb n (length src) ≡ true = lt→ltb n (length src) (omega arith) in
        rw (part, more) (split_round (omega arith))
  ]
