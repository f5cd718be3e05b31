-- ===== src/Pool/ThreadCache/Lists.antt =====
-- The free lists of a thread and their sizes.
use linux.Base.{
  ℕ, ◌+◌, ◌-◌, ◌*◌, ◌/◌, ◌%◌, ◌^◌, ◌≤◌, ◌<◌, max, ◌≡◌, refl, sym, ◌∙◌, inl, inr, true, false, some,
  List, [], ◌∷◌, arith, u64_mod, ltb, leb, ◌==◌, if◌then◌else◌, ==_iff, ==_refl, Bool-cases, length,
  take, drop, length-take, length-drop, take_all, is_empty,
}
use native.Mathlib.Nat.{mul-div_cancel}
use linux.Pool.SizeClass.{alignment, get_index, round_up, get_index-round_up}
use linux.Pool.CentralCache.{CentralCache, at_index, return_range}
use linux.Pool.ThreadCache
use linux.Pool.ThreadCache.{
  max_bytes, System, fetched, fetch_from_central_cache, take_block, allocate, deallocate,
  return_to_central_cache,
}

-- The size of a list is what is written down for it, and fits a `size_t`.
abbrev pub IsCounted : ThreadCache.ThreadCache → Type 0
IsCounted t =
    (i : ℕ) → (t.free_list_size i ≡ length (t.free_list i)) × (length (t.free_list i) + 1 < u64_mod)

-- A block of at most 256 KB that a thread gives back is the one that it gets next for a request of the same
-- size, and its lists and their sizes are then as before.
pub allocate-deallocate :
    (ptr size : ℕ) (system : System) (t : ThreadCache.ThreadCache) (c : CentralCache)
    → 0 < size
    → size ≤ max_bytes
    → IsCounted t
    → (t' : ThreadCache.ThreadCache) × (allocate size system (deallocate ptr size t) c
        ≡ some (some ptr, t', c))
      × ((i : ℕ) → (t'.free_list i ≡ t.free_list i) × (t'.free_list_size i ≡ t.free_list_size i))
unfolding allocate deallocate take_block at_index
allocate-deallocate ptr size system t c pos small counted =
    let index = get_index size in
    let large : ltb max_bytes size ≡ false = ground arith in
    let given : (size == 0) ≡ false = ground arith in
    let word : (t.free_list_size index + 1) % u64_mod ≡ t.free_list_size index + 1 =
      omega (arith, counted index) in
    let n = t.free_list_size index in
    let full : ThreadCache.ThreadCache = record t {
      free_list = at_index index (ptr ∷ t.free_list index) t.free_list;
      free_list_size = at_index index (n + 1) t.free_list_size;
    } in
    let m = full.free_list_size index in
    let freed : deallocate ptr size t ≡ full = rw (large, word) refl in
    (
      record full {
        free_list = at_index index (t.free_list index) full.free_list;
        free_list_size = at_index index (if ltb 0 m then m - 1 else m) full.free_list_size;
      },
      rw freed (rw (given, large, ==_refl index, ==_refl index) refl),
      λ i. elim (Bool-cases (i == index)) [
        | inl e ↦
            let same : i ≡ index = (==_iff i index).0 e in
            let one : ltb 0 (n + 1) ≡ true = ground arith in
            rw (e, ==_refl index, one, same) (refl, omega arith)
        | inr e ↦ rw e (refl, refl)
      ],
    )

-- When a thread returns a part of a list of at least two blocks, for blocks of a size that fits the pool, it
-- keeps a quarter of it, at least one, with its size, and every other block arrives in the central cache:
-- nothing is cut off by the number of blocks that `returnRange` computes from the bytes.
pub return_to_central_cache-splits :
    (start : List ℕ) (size now : ℕ) (t : ThreadCache.ThreadCache) (c : CentralCache)
    → 0 < size
    → size ≤ max_bytes
    → 1 < length start
    → length start < 2 ^ 40
    → let keep_num = max (length start / 4) 1 in
      let rest = drop keep_num start in
      let (t', c') = return_to_central_cache start size now t c in
      (t'.free_list (get_index size) ≡ take keep_num start)
      × (t'.free_list_size (get_index size) ≡ length (t'.free_list (get_index size)))
      × (c' ≡ return_range rest (length rest * round_up size % u64_mod) (get_index size) now c)
      × (take
            (max 1 (length rest * round_up size % u64_mod / ((get_index size + 1) * alignment)))
            rest
          ≡ rest)
unfolding return_to_central_cache at_index
return_to_central_cache-splits start size now t c pos small many few =
    let keep_num = max (length start / 4) 1 in
    let rest = drop keep_num start in
    let (aligned, low, high) = get_index-round_up size pos (omega arith) in
    let batch : leb (length start) 1 ≡ false = ground arith in
    let count : length rest ≡ length start - keep_num = length-drop keep_num start in
    let some_left : ltb 0 (length start - keep_num) ≡ true = ground arith in
    let not_null : is_empty rest ≡ false = nonempty rest (omega (arith, count)) in
    let fits : length rest * round_up size ≤ 2 ^ 40 * (2 ^ 18 + 8) =
      bounded (length rest) (round_up size) (omega (arith, count)) (omega arith) in
    let word : length rest * round_up size % u64_mod ≡ length rest * round_up size = omega arith in
    let blocks : length rest
          * ((get_index size + 1) * alignment)
          / ((get_index size + 1) * alignment)
        ≡ length rest =
      mul-div_cancel (length rest) (omega arith) in
    (
      rw (batch, ==_refl (get_index size)) refl,
      rw (batch, ==_refl (get_index size)) (sym (length-take keep_num start ∙ omega arith)),
      rw (batch, some_left, not_null, sym count) refl,
      rw (word, aligned, blocks) (take_all (max 1 (length rest)) rest (omega arith)),
    )
  where
    nonempty : (xs : List ℕ) → 0 < length xs → is_empty xs ≡ false
    nonempty [] h = absurd (omega arith)
    nonempty (x ∷ xs) h = refl

    bounded : (n r : ℕ) → n ≤ 2 ^ 40 → r ≤ 2 ^ 18 + 8 → n * r ≤ 2 ^ 40 * (2 ^ 18 + 8)
    bounded n r hn hr = grind arith
