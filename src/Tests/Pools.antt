-- ===== src/Tests/Pools.antt =====
-- The caches of the memory pool at concrete states.
use linux.Base.{
  ℕ, ◌+◌, ◌*◌, ◌≡◌, refl, true, none, some, List, [], ◌∷◌, arith, All, ◌==◌, if◌then◌else◌,
}
use linux.Pool.SizeClass.{alignment}
use linux.Pool.PageCache.{record_span, update, deallocate_span, PageCache, page_size}
use linux.Pool.CentralCache.{
  contains, SpanTracker, return_range, CentralCache, pages_for, fetch_range,
}
use linux.Pool.CentralCache.Blocks.{Apart, fetch_range-Apart}
use linux.Pool.CentralCache.Early.{return_range-early}
use linux.Pool.PageCache.Cover.{cover, IsAscending}
use linux.Pool.PageCache.Conserved.{allocate_span-fresh}
use linux.Pool.PageCache.Live.{
  Heap, cover_used, cover_all, allocates, frees, none_yet, then_one, IsApart,
}
use linux.Pool.PageCache.Live.Safe.{Steps-IsApart}
use linux.Pool.ThreadCache
use linux.Pool.ThreadCache.{System, allocate, deallocate}
use linux.Pool.ThreadCache.Lists.{IsCounted, allocate-deallocate}

abbrev no_pages : PageCache
no_pages = record { free_spans = []; span_map = []; pages = λ a. 0 }

abbrev new_central : CentralCache
new_central = record {
  central_free_list = λ i. [];
  span_trackers = [];
  delay_counts = λ i. 0;
  last_return_times = λ i. 0;
  page_cache = no_pages;
}

fetch_range-Apart_example :
    (start : ℕ) × (c' : CentralCache) × (fetch_range 7 (some 4096) new_central
      ≡ some (some start, c'))
    × (c'.page_cache.pages start ≡ pages_for (8 * alignment))
    × Apart
        (8 * alignment)
        start
        (start + pages_for (8 * alignment) * page_size)
        (start ∷ c'.central_free_list 7)
fetch_range-Apart_example = fetch_range-Apart 7 4096 new_central (omega arith) refl tt

abbrev new_thread : ThreadCache.ThreadCache
new_thread = record { free_list = λ i. []; free_list_size = λ i. 0 }

new_thread-IsCounted : IsCounted new_thread
new_thread-IsCounted i = (refl, omega arith)

abbrev no_memory : System
no_memory = record { malloc = λ n. none; mmap = none }

allocate-deallocate_example :
    (t' : ThreadCache.ThreadCache) × (allocate 24 no_memory
        (deallocate 4096 24 new_thread)
        new_central
      ≡ some (some 4096, t', new_central))
    × ((i : ℕ) → (◌≡◌ {A = List ℕ} (t'.free_list i) []) × (t'.free_list_size i ≡ 0))
allocate-deallocate_example =
    allocate-deallocate 4096 24 no_memory new_thread new_central (omega arith) (omega arith)
      new_thread-IsCounted

-- A span of three blocks: the first is in use, the second comes back, the third was never taken.
abbrev three_blocks : SpanTracker
three_blocks = record { span_addr = 4096; num_pages = 8; block_count = 3; free_count = 1 }

abbrev one_taken : CentralCache
one_taken = record new_central {
  central_free_list = λ i. if i == 1364 then (4096 + 2 * 10920) ∷ [] else [];
  span_trackers = three_blocks ∷ [];
}

return_range-early_example :
    let c' = return_range ((4096 + 10920) ∷ []) 10920 1364 1000 one_taken in
    (c'.central_free_list 1364 ≡ [])
    × (c'.page_cache ≡ deallocate_span 4096 8 no_pages)
    × All (λ u. contains three_blocks u ≡ true) (4096 ∷ [])
return_range-early_example =
    return_range-early 1364 1000 (4096 + 10920) (4096 ∷ []) one_taken three_blocks (omega arith)
      refl (omega arith, (omega arith, tt)) (omega arith, tt) (omega arith) (omega arith)
      (omega arith) refl refl refl

abbrev no_spans : Heap
no_spans = record { cache = no_pages; used = [] }

no_spans-IsApart : IsApart no_spans
unfolding cover_used cover_all cover IsAscending
no_spans-IsApart = record { ordered = tt; sized = tt; live = tt; apart = λ x. omega arith }

abbrev with_span : PageCache
with_span = record_span 4096 (record no_pages { pages = update 4096 8 (λ a. 0) })

-- A span of eight pages is given out and comes back.
Steps-IsApart_example : IsApart (record { cache = deallocate_span 4096 8 with_span; used = [] })
unfolding cover_used cover_all cover
Steps-IsApart_example = Steps-IsApart no_spans-IsApart (
    then_one
      (then_one none_yet (
        allocates 8 (some 4096) 4096 with_span (omega arith) (λ x p. refl)
          (allocate_span-fresh 8 4096 no_pages refl)))
      (frees [] [] 4096 8 refl))
