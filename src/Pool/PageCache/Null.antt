-- ===== src/Pool/PageCache/Null.antt =====
-- The empty entries that `deallocateSpan` leaves in `freeSpans_`.
use linux.Base.{ℕ, ◌+◌, ◌*◌, ◌≡◌, refl, ◌≢◌, true, Option, none, some, List, [], ◌∷◌, arith}
use linux.Pool.PageCache.{
  PageCache, FreeSpans, mem, lower_bound, free_list, put_list, take_span, allocate_span, merge,
  push_free, deallocate_span, page_size,
}

lower_bound-put_same :
    (m : ℕ) (l : List ℕ) (fs : FreeSpans) → lower_bound m (put_list m l fs) ≡ some (m, l)
unfolding lower_bound put_list
lower_bound-put_same m l [] = ground arith
lower_bound-put_same m l ((k, x) ∷ fs) = ground (arith, lower_bound-put_same m l fs)

lower_bound-put_other :
    (m n : ℕ) (l x : List ℕ) (fs : FreeSpans)
    → n ≢ m
    → lower_bound m fs ≡ some (m, x)
    → lower_bound m (put_list n l fs) ≡ some (m, x)
unfolding lower_bound put_list
lower_bound-put_other m n l x [] ne h = cc
lower_bound-put_other m n l x ((k, y) ∷ fs) ne h = ground (arith, lower_bound-put_other m n l x fs)

null_access :
    (n k : ℕ) (memory : Option ℕ) (pc : PageCache)
    → lower_bound n pc.free_spans ≡ some (k, [])
    → allocate_span n memory pc ≡ none
unfolding allocate_span take_span
null_access n k memory pc e = rw (allocate_span, e) refl

merge_nothing :
    (ptr next_addr : ℕ) (pc : PageCache)
    → mem next_addr pc.span_map ≡ true
    → free_list (pc.pages next_addr) pc.free_spans ≡ []
    → merge ptr next_addr pc
      ≡ record pc { free_spans = put_list (pc.pages next_addr) [] pc.free_spans }
unfolding merge mem
merge_nothing ptr next_addr pc hn he = rw (hn, he) refl

-- Freeing a span in front of a mapped one that is in use, of another size, when no span of that size is
-- free, leaves a null list for that size; the next request for that many pages reads through the null
-- pointer.
pub allocate_span-null :
    (ptr num_pages : ℕ) (memory : Option ℕ) (pc : PageCache)
    → mem ptr pc.span_map ≡ true
    → mem (ptr + num_pages * page_size) pc.span_map ≡ true
    → free_list (pc.pages (ptr + num_pages * page_size)) pc.free_spans ≡ []
    → pc.pages ptr ≢ pc.pages (ptr + num_pages * page_size)
    → allocate_span
        (pc.pages (ptr + num_pages * page_size))
        memory
        (deallocate_span ptr num_pages pc)
      ≡ none
unfolding deallocate_span push_free
allocate_span-null ptr num_pages memory pc hp hn he ne =
    let next_addr = ptr + num_pages * page_size in
    let m = pc.pages next_addr in
    let fs = put_list m [] pc.free_spans in
    null_access m m memory (deallocate_span ptr num_pages pc) (
      rw (hp, merge_nothing ptr next_addr pc hn he)
        (lower_bound-put_other m (pc.pages ptr) (ptr ∷ free_list (pc.pages ptr) fs) [] fs ne
          (lower_bound-put_same m [] pc.free_spans)))
