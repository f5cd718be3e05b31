-- ===== src/Pool/PageCache/Live/Kept.antt =====
-- Giving out a span keeps the spans apart.
use linux.Base.{
  ℕ, zero, suc, ◌+◌, ◌≤◌, ◌<◌, ◌≡◌, refl, ap, ◌∙◌, subst, ◌≢◌, inl, inr, Option, some, List, [],
  ◌∷◌, arith, All,
}
use linux.Pool.PageCache.{PageCache, update, lower_bound, record_span, split, allocate_span}
use linux.Pool.PageCache.Allocate.{record_span-mem, record_span-pages, split-pages}
use linux.Pool.PageCache.Cover.{over, cover, free_list-lower_bound}
use linux.Pool.PageCache.Conserved.{
  IsOrdered, without, taken_free, record_span-free, split-cover, taken-cover, allocate_span-cases,
}
use linux.Pool.PageCache.Sizes.{
  HaveSize, IsSized, over_self, over_le, free_list-HaveSize, IsSized-frame,
}
use linux.Pool.PageCache.Split.{
  update_same, update_other, split_frame, split-span_map, split-IsSized, taken-IsSized,
  record_span-still,
}
use linux.Pool.PageCache.Live.{Heap, cover_used, cover_all, IsFresh, IsLive, IsApart}

-- What is kept wherever a span in use begins is kept for all of them.
pub IsLive-frame :
    (pc pc' : PageCache) (us : List (ℕ × ℕ))
    → ((a n : ℕ) → 0 < cover_used us a → IsLive pc (a, n) → IsLive pc' (a, n))
    → All (IsLive pc) us
    → All (IsLive pc') us
unfolding cover_used
IsLive-frame pc pc' [] f h = tt
IsLive-frame pc pc' ((a, n) ∷ us) f (ha, h) = (
  f a n (omega (arith, over_self a n ha.0)) ha,
  IsLive-frame pc pc' us (λ b m p. f b m (omega (arith, p))) h,
)

-- An entry of `spanMap_` for a span changes neither the free spans nor the sizes.
recorded :
    (a n : ℕ) (pc : PageCache) (us : List (ℕ × ℕ))
    → IsOrdered pc
    → IsSized pc.pages pc.free_spans
    → 0 < n
    → pc.pages a ≡ n
    → All (IsLive pc) us
    → ((x : ℕ) → cover pc.free_spans x + (over a n x + cover_used us x) ≤ 1)
    → IsApart (record { cache = record_span a pc; used = (a, n) ∷ us })
unfolding cover_all cover_used
recorded a n pc us o s pos size l h =
    let free = record_span-free a pc in
    let pages = record_span-pages a pc in
    record {
      ordered = rw free o;
      sized = rw (free, pages) s;
      live = (
        (pos, rw pages size, record_span-mem a pc),
        IsLive-frame pc (record_span a pc) us
            (λ b m p k. (k.0, rw pages k.1, record_span-still a b pc k.2)) l,
      );
      apart = λ x. rw free (h x);
    }

found-IsApart :
    (h : Heap) (n k a : ℕ) (next : List ℕ)
    → 0 < n
    → lower_bound n h.cache.free_spans ≡ some (k, a ∷ next)
    → IsApart h
    → IsApart (record {
      cache = record_span a (split n a (without k next h.cache));
      used = (a, n) ∷ h.used;
    })
unfolding cover_all
found-IsApart h n k a next pos e inv =
    let pc = h.cache in
    let rest = without k next pc in
    let (list, low, le) = free_list-lower_bound n 0 pc.free_spans k (a ∷ next) inv.ordered e in
    let sizes = free_list-HaveSize pc.pages k pc.free_spans inv.sized in
    let mine : HaveSize pc.pages k (a ∷ next) = rw list at sizes.0 in
    let kpos : 0 < k = omega (arith, le, pos) in
    let large : n ≤ pc.pages a = omega (arith, mine.0, le) in
    let has : 0 < pc.pages a = omega (arith, mine.0, kpos) in
    let takes : (x : ℕ)
        → cover (taken_free k next pc.free_spans) x + over a k x ≡ cover pc.free_spans x =
      λ x. (taken-cover k a next pc.free_spans x inv.ordered list).0 in
    let rest_ordered : IsOrdered rest = (taken-cover k a next pc.free_spans 0 inv.ordered list).1 in
    let rest_sized : IsSized pc.pages rest.free_spans =
      taken-IsSized pc.pages k next pc.free_spans kpos mine.1 inv.sized in
    let cuts : (x : ℕ) → cover (split n a rest).free_spans x + over a n x ≡ cover pc.free_spans x =
      λ x.
        (split-cover n a rest x rest_ordered large).0
        ∙ ap (λ j. cover rest.free_spans x + over a j x) mine.0
        ∙ takes x in
    recorded a n (split n a rest) h.used (split-cover n a rest 0 rest_ordered large).1
      (split-IsSized n a rest pos has
        (λ y p. omega (arith, p, takes y, inv.apart y, ap (λ j. over a j y) mine.0)) rest_sized)
      pos (split-pages n a rest large)
      (IsLive-frame pc (split n a rest) h.used
        (λ b m p l. (
          l.0,
          split_frame n a rest b has
                (omega (arith, p, takes b, inv.apart b, ap (λ j. over a j b) mine.0))
              ∙ l.1,
          rw (split-span_map n a rest) l.2,
        ))
        inv.live)
      (λ x. omega (arith, cuts x, inv.apart x))

fresh-IsApart :
    (h : Heap) (n a : ℕ)
    → 0 < n
    → IsFresh (some a) n h
    → IsApart h
    → IsApart (record {
      cache = record_span a (record h.cache { pages = update a n h.cache.pages });
      used = (a, n) ∷ h.used;
    })
unfolding cover_all
fresh-IsApart h n a pos fresh inv =
    let pc = h.cache in
    let self = over_self a n pos in
    let none_here : cover pc.free_spans a + cover_used h.used a ≡ 0 =
      fresh a (omega (arith, self)) in
    let other : (y : ℕ) → 0 < cover pc.free_spans y + cover_used h.used y → y ≢ a = λ y p e.
      absurd
        (omega (arith, p, none_here, ap (λ z. cover pc.free_spans z + cover_used h.used z) e)) in
    recorded a n (record pc { pages = update a n pc.pages }) h.used inv.ordered
      (IsSized-frame pc.pages (update a n pc.pages) pc.free_spans
        (λ y p. update_other a n pc.pages y (other y (omega (arith, p)))) inv.sized)
      pos (update_same a n pc.pages)
      (IsLive-frame pc (record pc { pages = update a n pc.pages }) h.used
        (λ b m p l. (l.0, update_other a n pc.pages b (other b (omega (arith, p))) ∙ l.1, l.2))
        inv.live)
      (λ x. once x (over a n x) refl)
  where
    once :
        (x o : ℕ)
        → over a n x ≡ o
        → cover h.cache.free_spans x + (over a n x + cover_used h.used x) ≤ 1
    once x zero e = omega (arith, e, inv.apart x)
    once x (suc o) e = omega (arith, fresh x (omega (arith, e)), over_le a n x)

pub allocates-IsApart :
    (h : Heap) (n : ℕ) (memory : Option ℕ) (a : ℕ) (cache : PageCache)
    → 0 < n
    → IsFresh memory n h
    → allocate_span n memory h.cache ≡ some (some a, cache)
    → IsApart h
    → IsApart (record { cache = cache; used = (a, n) ∷ h.used })
allocates-IsApart h n memory a cache pos fresh e inv =
    elim (allocate_span-cases n memory h.cache a cache e) [
      | inl (k, next, f, same) ↦
          subst (λ c. IsApart (record { cache = c; used = (a, n) ∷ h.used })) same
            (found-IsApart h n k a next pos f inv)
      | inr (m, same) ↦
          subst (λ c. IsApart (record { cache = c; used = (a, n) ∷ h.used })) same
            (fresh-IsApart h n a pos (subst (λ o. IsFresh o n h) m fresh) inv)
    ]
