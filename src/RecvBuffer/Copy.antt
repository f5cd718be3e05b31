-- ===== src/RecvBuffer/Copy.antt =====
-- `memcpy` into the storage: what it changes and what it leaves.
use linux.Base.{
  ℕ, ◌+◌, ◌-◌, ◌≤◌, ◌<◌, ◌≡◌, ap, ◌∙◌, ◌++◌, arith, Bytes, length, get_or, take, drop,
  length-append, length-take, length-drop, get_or-append_left, get_or-append_right, get_or-take,
  get_or-drop,
}
use linux.RecvBuffer.{copy_in}

module _ (buf : Bytes) (pos : ℕ) (src : Bytes) (fits : pos + length src ≤ length buf) where
  pub length-copy_in : length (copy_in buf pos src) ≡ length buf
  unfolding copy_in
  length-copy_in = omega (
    arith,
    length-append (take pos buf) (src ++ drop (pos + length src) buf),
    length-append src (drop (pos + length src) buf),
    length-take pos buf,
    length-drop (pos + length src) buf,
  )

  front : length (take pos buf) ≡ pos
  front = omega (arith, length-take pos buf)

  pub copy_in_before : (i : ℕ) → i < pos → get_or (copy_in buf pos src) i 0 ≡ get_or buf i 0
  unfolding copy_in
  copy_in_before i h =
      get_or-append_left (take pos buf) (src ++ drop (pos + length src) buf) i 0
        (omega (arith, front))
      ∙ get_or-take pos buf i 0 h

  pub copy_in_inside :
      (i : ℕ) → i < length src → get_or (copy_in buf pos src) (pos + i) 0 ≡ get_or src i 0
  unfolding copy_in
  copy_in_inside i h =
      ap (λ k. get_or (copy_in buf pos src) k 0) (omega (arith, front))
      ∙ get_or-append_right (take pos buf) (src ++ drop (pos + length src) buf) i 0
      ∙ get_or-append_left src (drop (pos + length src) buf) i 0 h

  pub copy_in_after :
      (i : ℕ) → pos + length src ≤ i → get_or (copy_in buf pos src) i 0 ≡ get_or buf i 0
  unfolding copy_in
  copy_in_after i h =
      let k : ℕ = i - pos - length src in
      ap (λ k. get_or (copy_in buf pos src) k 0) (omega (arith, front))
      ∙ get_or-append_right (take pos buf) (src ++ drop (pos + length src) buf) (length src + k) 0
      ∙ get_or-append_right src (drop (pos + length src) buf) k 0
      ∙ get_or-drop (pos + length src) buf k 0
      ∙ ap (λ k. get_or buf k 0) (omega arith)
