-- ===== src/Pool/PageCache/Live/Safe.antt =====
-- Every run of the cache keeps the spans apart.
use linux.Base.{ℕ, ◌+◌, ◌≤◌, ◌<◌, ◌≡◌, refl, ap, ◌∙◌, subst, ◌≢◌, List, [], ◌∷◌, ◌++◌, arith, All}
use linux.Pool.PageCache.{PageCache, deallocate_span}
use linux.Pool.PageCache.Cover.{over, cover}
use linux.Pool.PageCache.Conserved.{deallocate_span-cover}
use linux.Pool.PageCache.Sizes.{over_self}
use linux.Pool.PageCache.Merge.{deallocate_span-IsSized, deallocate_span_frame}
use linux.Pool.PageCache.Live.{
  Heap, cover_used, cover_all, Step, allocates, frees, Steps, none_yet, then_one, IsLive, IsApart,
}
use linux.Pool.PageCache.Live.Kept.{IsLive-frame, allocates-IsApart}

cover_used-middle :
    (before after : List (ℕ × ℕ)) (a n x : ℕ)
    → cover_used (before ++ (a, n) ∷ after) x ≡ over a n x + cover_used (before ++ after) x
unfolding cover_used
cover_used-middle [] after a n x = refl
cover_used-middle ((b, m) ∷ before) after a n x =
    omega (arith, cover_used-middle before after a n x)

IsLive-middle :
    (pc : PageCache) (before after : List (ℕ × ℕ)) (u : ℕ × ℕ)
    → All (IsLive pc) (before ++ u ∷ after)
    → IsLive pc u × All (IsLive pc) (before ++ after)
IsLive-middle pc [] after u h = h
IsLive-middle pc (v ∷ before) after u (hv, h) =
    let (hu, rest) = IsLive-middle pc before after u h in (hu, (hv, rest))

frees-IsApart :
    (h : Heap) (before after : List (ℕ × ℕ)) (a n : ℕ)
    → h.used ≡ before ++ (a, n) ∷ after
    → IsApart h
    → IsApart (record { cache = deallocate_span a n h.cache; used = before ++ after })
unfolding cover_all
frees-IsApart h before after a n e inv =
    let pc = h.cache in
    let us = before ++ after in
    let (mine, others) =
      IsLive-middle pc before after (a, n) (subst (All (IsLive pc)) e inv.live) in
    let once : (x : ℕ) → cover pc.free_spans x + (over a n x + cover_used us x) ≤ 1 = λ x.
      omega
        (arith, inv.apart x, ap (λ u. cover_used u x) e, cover_used-middle before after a n x) in
    let self = over_self a n mine.0 in
    let alone : cover pc.free_spans a ≡ 0 = omega (arith, once a, self) in
    let other : (b : ℕ) → 0 < cover_used us b → b ≢ a =
      λ b p g. absurd (omega (arith, p, once a, self, ap (cover_used us) g)) in
    record {
      ordered = (deallocate_span-cover a n pc 0 inv.ordered mine.2 mine.1).1;
      sized = deallocate_span-IsSized a n pc mine.2 (omega (arith, mine.0, mine.1)) alone inv.sized;
      live =
          IsLive-frame pc (deallocate_span a n pc) us
            (λ b m p l.
              let (size, entry) =
                deallocate_span_frame a n b pc mine.2 (other b p) (omega (arith, p, once b))
                  inv.sized in
              (l.0, size ∙ l.1, entry l.2))
            others;
      apart =
          λ x. omega (arith, once x, (deallocate_span-cover a n pc x inv.ordered mine.2 mine.1).0);
    }

Step-IsApart : {h h' : Heap} → Step h h' → IsApart h → IsApart h'
Step-IsApart (allocates {h} n memory a cache pos fresh e) inv =
    allocates-IsApart h n memory a cache pos fresh e inv
Step-IsApart (frees {h} before after a n e) inv = frees-IsApart h before after a n e inv

-- However `allocateSpan` and `deallocateSpan` follow one another, with splitting, merging and memory from the
-- system, when a span comes back once and with the pages that it was asked for, and `mmap` answers with
-- addresses that no span has: no address is ever in two spans, given out or free, and each span that is given out has
-- its size and its entry in `spanMap_`.
pub Steps-IsApart : {first h : Heap} → IsApart first → Steps first h → IsApart h
Steps-IsApart inv none_yet = inv
Steps-IsApart inv (then_one steps one) = Step-IsApart one (Steps-IsApart inv steps)
