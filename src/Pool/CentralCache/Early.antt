-- ===== src/Pool/CentralCache/Early.antt =====
-- A delayed return counts the blocks of the list on top of a count that has them already.
use linux.Base.{
  ℕ, ◌+◌, ◌-◌, ◌*◌, ◌/◌, ◌%◌, ◌≤◌, ◌<◌, ◌≡◌, refl, Bool, true, false, ◌||◌, List, [], ◌∷◌, arith,
  u64_mod, All, leb, ◌==◌, ==_refl, length,
}
use native.Mathlib.Nat.{div_self}
use linux.Pool.SizeClass.{alignment}
use linux.Pool.PageCache.{page_size, deallocate_span}
use linux.Pool.CentralCache.{
  CentralCache, SpanTracker, free_list_size, delay_interval, max_delay_count, at_index, contains,
  get_span_tracker, update_tracker, count_blocks, outside, release, update_span_free_count,
  update_all, perform_delayed_return, should_perform_delayed_return, return_range,
}

-- The blocks lie in the pages of the span.
abbrev pub IsInside : SpanTracker → List ℕ → Type 0
IsInside t bs =
    All (λ b. (0 < t.span_addr) × (t.span_addr ≤ b) × (b < t.span_addr + t.num_pages * page_size))
      bs

contains_inside :
    (t : SpanTracker) (b : ℕ)
    → 0 < t.span_addr
    → t.span_addr ≤ b
    → b < t.span_addr + t.num_pages * page_size
    → contains t b ≡ true
unfolding contains
contains_inside t b pos lo hi = ground arith

count_blocks-all :
    (t : SpanTracker) (bs : List ℕ) → IsInside t bs → count_blocks 0 (t ∷ []) bs ≡ length bs
unfolding count_blocks get_span_tracker
count_blocks-all t [] h = refl
count_blocks-all t (b ∷ bs) (h, hs) =
    rw (contains_inside t b h.0 h.1 h.2, count_blocks-all t bs hs) (omega arith)

outside-all :
    (t : SpanTracker) (bs : List ℕ)
    → IsInside t bs
    → outside t.span_addr (t.span_addr + t.num_pages * page_size) bs ≡ []
unfolding outside
outside-all t [] h = refl
outside-all t (b ∷ bs) (h, hs) = rw (outside-all t bs hs) (ground (arith, h))

-- The only span goes back to the page cache when its count and the blocks in the list add up to its blocks.
perform_delayed_return-early :
    (index now : ℕ) (c : CentralCache) (t : SpanTracker)
    → c.span_trackers ≡ t ∷ []
    → IsInside t (c.central_free_list index)
    → 0 < length (c.central_free_list index)
    → (t.free_count + length (c.central_free_list index)) % u64_mod ≡ t.block_count
    → let c' = perform_delayed_return index now c in
      (c'.central_free_list index ≡ [])
      × (c'.page_cache ≡ deallocate_span t.span_addr t.num_pages c.page_cache)
unfolding perform_delayed_return update_all update_span_free_count update_tracker release at_index
perform_delayed_return-early index now c t one inside some_free sum =
    let some_counted : (length (c.central_free_list index) == 0) ≡ false = ground arith in
    rw
      (
        one,
        count_blocks-all t (c.central_free_list index) inside,
        some_counted,
        sum,
        ==_refl t.block_count,
        outside-all t (c.central_free_list index) inside,
        ==_refl index,
      )
      (refl, refl)

return_range-release :
    (index now b : ℕ) (c : CentralCache) (t : SpanTracker)
    → index < free_list_size
    → c.span_trackers ≡ t ∷ []
    → IsInside t (b ∷ c.central_free_list index)
    → delay_interval ≤ now - c.last_return_times index
    → (t.free_count + length (b ∷ c.central_free_list index)) % u64_mod ≡ t.block_count
    → let c' = return_range (b ∷ []) ((index + 1) * alignment) index now c in
      (c'.central_free_list index ≡ [])
      × (c'.page_cache ≡ deallocate_span t.span_addr t.num_pages c.page_cache)
unfolding return_range at_index should_perform_delayed_return
return_range-release index now b c t small one inside due sum =
    let in_range : leb free_list_size index ≡ false = ground arith in
    let late : leb delay_interval (now - c.last_return_times index) ≡ true = ground arith in
    let single : (index + 1) * alignment / ((index + 1) * alignment) ≡ 1 = div_self (omega arith) in
    let here : at_index index (b ∷ c.central_free_list index) c.central_free_list index
        ≡ b ∷ c.central_free_list index =
      rw (==_refl index) refl in
    let returned : CentralCache = record c {
      central_free_list = at_index index (b ∷ c.central_free_list index) c.central_free_list;
      delay_counts = at_index index ((c.delay_counts index + 1) % u64_mod) c.delay_counts;
    } in
    rw
      (in_range, single, late, or_true (leb max_delay_count ((c.delay_counts index + 1) % u64_mod)))
      (perform_delayed_return-early index now returned t one (rw here inside)
        (rw here (omega arith)) (rw here sum))
  where
    or_true : (x : Bool) → (x || true) ≡ true
    or_true true = refl
    or_true false = refl

-- The only span of the cache, whose count of free blocks is right: it has the blocks of the list, a block that a
-- thread gives back, and `used`, which threads still use. When threads use as many as are in the list with the
-- one that comes back, less one, then that block, after the interval, sends the whole span back to the page cache,
-- with the blocks in use, at least one, and empties the list.
pub return_range-early :
    (index now b : ℕ) (used : List ℕ) (c : CentralCache) (t : SpanTracker)
    → index < free_list_size
    → c.span_trackers ≡ t ∷ []
    → IsInside t (b ∷ c.central_free_list index)
    → IsInside t used
    → delay_interval ≤ now - c.last_return_times index
    → 0 < length used
    → t.block_count < u64_mod
    → t.free_count ≡ length (c.central_free_list index)
    → t.block_count ≡ t.free_count + 1 + length used
    → length used ≡ t.free_count
    → let c' = return_range (b ∷ []) ((index + 1) * alignment) index now c in
      (c'.central_free_list index ≡ [])
      × (c'.page_cache ≡ deallocate_span t.span_addr t.num_pages c.page_cache)
      × All (λ u. contains t u ≡ true) used
return_range-early index now b used c t small one inside inside' due busy fits free all half =
    let (emptied, gone) =
      return_range-release index now b c t small one inside due (
        mod-eq_of_lt_here (omega (arith, free, all, half, fits))
          (omega (arith, free, all, half))) in
    (emptied, gone, in_span used inside')
  where
    mod-eq_of_lt_here : {n m : ℕ} → n < u64_mod → n ≡ m → n % u64_mod ≡ m
    mod-eq_of_lt_here lt e = omega (arith, lt, e)

    in_span : (us : List ℕ) → IsInside t us → All (λ u. contains t u ≡ true) us
    in_span [] h = tt
    in_span (u ∷ us) (h, hs) = (contains_inside t u h.0 h.1 h.2, in_span us hs)
