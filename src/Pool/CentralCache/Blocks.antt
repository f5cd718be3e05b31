-- ===== src/Pool/CentralCache/Blocks.antt =====
-- A span that `fetchRange` takes from the page cache is cut into blocks that lie in it and do not overlap.
use linux.Base.{
  ℕ, zero, suc, ◌+◌, ◌-◌, ◌*◌, ◌/◌, ◌≤◌, ◌<◌, ◌≡◌, refl, ap, ◌∙◌, inl, inr, false, some, List, [],
  ◌∷◌, arith, ltb, leb, ltb→lt, leb→le, ==_refl, Bool-cases,
}
use linux.Base.Tabulate.{tabulate, tabulate_ext}
use native.Mathlib.Nat.{div-mul-le_self}
use linux.Pool.SizeClass.{alignment}
use linux.Pool.PageCache.{PageCache, page_size}
use linux.Pool.PageCache.Allocate.{IsFilled, allocate_span-size}
use linux.Pool.CentralCache.{
  CentralCache, span_pages, free_list_size, pages_for, fetch_from_page_cache, at_index,
  other_blocks, cut, fetch_new, fetch_from, fetch_range,
}

-- Blocks of `size` bytes, one behind the other from `lo` to at most `hi`.
abbrev pub Apart : ℕ → ℕ → ℕ → List ℕ → Type 0
Apart size lo hi [] = lo ≤ hi
Apart size lo hi (b ∷ bs) = (lo ≤ b) × Apart size (b + size) hi bs

tabulate-Apart :
    (size start n hi : ℕ)
    → start + n * size ≤ hi
    → Apart size start hi (tabulate n (λ i. start + i * size))
tabulate-Apart size start zero hi h = omega arith
tabulate-Apart size start (suc n) hi h =
    let first : start + 0 * size ≡ start = omega arith in
    let shifted : tabulate n (λ i. start + suc i * size)
        ≡ tabulate n (λ i. (start + size) + i * size) =
      tabulate_ext n (λ i. start + suc i * size) (λ i. (start + size) + i * size)
        (λ i lt. omega arith) in
    rw (first, shifted) (omega arith, tabulate-Apart size (start + size) n hi (omega arith))

enough : (size : ℕ) → 0 < size → size ≤ pages_for size * page_size
unfolding pages_for
enough size h = elim (Bool-cases (leb size (span_pages * page_size))) [
  | inl e ↦ rw e (leb→le size (span_pages * page_size) e)
  | inr e ↦ rw e (omega arith)
]

one_more : (n size : ℕ) → 1 ≤ n → (n - 1) * size + size ≡ n * size
one_more zero size h = absurd (omega arith)
one_more (suc n) size h = let pred : suc n - 1 ≡ n = omega arith in rw pred (omega arith)

cut-Apart :
    (index start : ℕ) (pages : PageCache) (c : CentralCache)
    → c.central_free_list index ≡ []
    → let size = (index + 1) * alignment in
      ((cut index start pages c).page_cache ≡ pages)
      × Apart size start
          (start + pages_for size * page_size)
          (start ∷ (cut index start pages c).central_free_list index)
unfolding cut other_blocks at_index
cut-Apart index start pages c he =
    let size = (index + 1) * alignment in
    let space = pages_for size * page_size in
    let num = space / size in
    elim (Bool-cases (ltb 1 num)) [
      | inl e ↦
          let more : 1 < num = ltb→lt 1 num e in
          let fits : num * size ≤ space = div-mul-le_self space size in
          let whole : (num - 1) * size + size ≡ num * size =
            one_more num size (omega (arith, more)) in
          let shifted : tabulate (num - 1) (λ i. start + (i + 1) * size)
              ≡ tabulate (num - 1) (λ i. (start + size) + i * size) =
            tabulate_ext (num - 1) (λ i. start + (i + 1) * size) (λ i. (start + size) + i * size)
              (λ i lt. next i size) in
          rw (e, ==_refl index, shifted)
            (
              refl,
              (
                omega arith,
                tabulate-Apart size (start + size) (num - 1) (start + space)
                    (omega (arith, fits, whole)),
              ),
            )
      | inr e ↦ rw (e, he) (refl, (omega arith, omega (arith, enough size (omega arith))))
    ]
  where
    next : (i size : ℕ) → start + (i + 1) * size ≡ (start + size) + i * size
    next i size = omega arith

-- When the list of an index is empty, the page cache has spans in all its lists, and the system has memory,
-- `fetchRange` returns the first block of a span; the others become the list of the index, each of the size
-- of the class, none overlapping another or the first, all inside the pages of the span.
pub fetch_range-Apart :
    (index memory : ℕ) (c : CentralCache)
    → index < free_list_size
    → c.central_free_list index ≡ []
    → IsFilled c.page_cache.pages c.page_cache.free_spans
    → let size = (index + 1) * alignment in
      (start : ℕ) × (c' : CentralCache) × (fetch_range index (some memory) c
        ≡ some (some start, c'))
      × (c'.page_cache.pages start ≡ pages_for size)
      × Apart size start (start + pages_for size * page_size) (start ∷ c'.central_free_list index)
unfolding fetch_range fetch_from fetch_new fetch_from_page_cache
fetch_range-Apart index memory c hi he hf =
    let size = (index + 1) * alignment in
    let small : leb free_list_size index ≡ false = ground arith in
    let (answer, pages, e, which) =
      allocate_span-size (pages_for size) (some memory) c.page_cache hf in
    elim which [
      | inl (_, no_memory, _) ↦ cc
      | inr (start, same, num, _) ↦
          let (page_cache, blocks) = cut-Apart index start pages c he in
          (
            start,
            cut index start pages c,
            rw (small, he, fetch_from, fetch_from_page_cache, e, same) refl,
            ap (λ p. p.pages start) page_cache ∙ num,
            blocks,
          )
    ]
