-- ===== src/Pool/PageCache/Merge.antt =====
-- What `deallocateSpan` writes to the sizes and to `spanMap_`.
use linux.Base.{
  ℕ, ◌+◌, ◌*◌, ◌<◌, ◌≡◌, refl, sym, ap, ◌∙◌, ◌≢◌, inl, inr, true, false, List, [], ◌∷◌, arith, ◌==◌,
  Bool-cases, length, true_ne_false,
}
use linux.Pool.PageCache.{
  PageCache, page_size, mem, remove, update, free_list, merge, push_free, deallocate_span,
}
use linux.Pool.PageCache.Cover.{cover}
use linux.Pool.PageCache.Sizes.{
  IsSized, free_list-HaveSize, remove-HaveSize, put_list-IsSized, IsSized-frame, cover_list-mem,
  cover-free_list,
}
use linux.Pool.PageCache.Split.{update_same, update_other}

mem-length : (a : ℕ) (l : List ℕ) → mem a l ≡ true → 0 < length l
unfolding mem
mem-length a [] h = absurd (true_ne_false (sym h))
mem-length a (b ∷ l) h = omega arith

mem-remove_other : (a b : ℕ) (l : List ℕ) → b ≢ a → mem b (remove a l) ≡ mem b l
unfolding mem remove
mem-remove_other a b [] ne = refl
mem-remove_other a b (c ∷ l) ne = elim (Bool-cases (c == a)) [
  | inl e ↦ let other : (c == b) ≡ false = ground (arith, ne, e) in rw (e, other) refl
  | inr e ↦ rw (e, mem-remove_other a b l ne) refl
]

push_free-IsSized :
    (ptr : ℕ) (pc : PageCache)
    → 0 < pc.pages ptr
    → IsSized pc.pages pc.free_spans
    → IsSized (push_free ptr pc).pages (push_free ptr pc).free_spans
unfolding push_free
push_free-IsSized ptr pc pos h =
    put_list-IsSized pc.pages (pc.pages ptr) (ptr ∷ free_list (pc.pages ptr) pc.free_spans)
      pc.free_spans (λ p. pos)
      (refl, (free_list-HaveSize pc.pages (pc.pages ptr) pc.free_spans h).0) h

merge-IsSized :
    (ptr next : ℕ) (pc : PageCache)
    → 0 < pc.pages ptr
    → cover pc.free_spans ptr ≡ 0
    → IsSized pc.pages pc.free_spans
    → IsSized (merge ptr next pc).pages (merge ptr next pc).free_spans
      × (0 < (merge ptr next pc).pages ptr)
unfolding merge
merge-IsSized ptr next pc pos alone h =
    let m = pc.pages next in
    let list = free_list m pc.free_spans in
    let pages' = update ptr (pc.pages ptr + m) pc.pages in
    let framed : IsSized pages' pc.free_spans =
      IsSized-frame pc.pages pages' pc.free_spans
        (λ y p.
          update_other ptr (pc.pages ptr + m) pc.pages y
            (λ e. absurd (omega (arith, p, alone, ap (cover pc.free_spans) e))))
        h in
    elim (Bool-cases (mem next pc.span_map)) [
      | inl e ↦ elim (Bool-cases (mem next list)) [
        | inl f ↦
            let sizes = free_list-HaveSize pages' m pc.free_spans framed in
            rw (e, f)
              (
                put_list-IsSized pages' m (remove next list) pc.free_spans
                    (λ p. sizes.1 (mem-length next list f))
                    (remove-HaveSize pages' m next list sizes.0) framed,
                omega (arith, update_same ptr (pc.pages ptr + m) pc.pages, pos),
              )
        | inr f ↦
            let sizes = free_list-HaveSize pc.pages m pc.free_spans h in
            rw (e, f) (put_list-IsSized pc.pages m list pc.free_spans sizes.1 sizes.0 h, pos)
      ]
      | inr e ↦ rw e (h, pos)
    ]

-- A span elsewhere that is not free keeps its size and its entry.
merge_frame :
    (ptr next b : ℕ) (pc : PageCache)
    → b ≢ ptr
    → cover pc.free_spans b ≡ 0
    → IsSized pc.pages pc.free_spans
    → ((merge ptr next pc).pages b ≡ pc.pages b)
      × (mem b pc.span_map ≡ true → mem b (merge ptr next pc).span_map ≡ true)
unfolding merge
merge_frame ptr next b pc ne taken h =
    let m = pc.pages next in
    let list = free_list m pc.free_spans in
    elim (Bool-cases (mem next pc.span_map)) [
      | inl e ↦ elim (Bool-cases (mem next list)) [
        | inl f ↦
            let pos = (free_list-HaveSize pc.pages m pc.free_spans h).1 (mem-length next list f) in
            let free : 0 < cover pc.free_spans next =
              omega
                (arith, cover_list-mem m next list pos f, cover-free_list m pc.free_spans next) in
            let apart : b ≢ next =
              λ g. absurd (omega (arith, free, taken, ap (cover pc.free_spans) g)) in
            rw (e, f)
              (
                update_other ptr (pc.pages ptr + m) pc.pages b ne,
                λ k. mem-remove_other next b pc.span_map apart ∙ k,
              )
        | inr f ↦ rw (e, f) (refl, λ k. k)
      ]
      | inr e ↦ rw e (refl, λ k. k)
    ]

pub deallocate_span-IsSized :
    (ptr n : ℕ) (pc : PageCache)
    → mem ptr pc.span_map ≡ true
    → 0 < pc.pages ptr
    → cover pc.free_spans ptr ≡ 0
    → IsSized pc.pages pc.free_spans
    → IsSized (deallocate_span ptr n pc).pages (deallocate_span ptr n pc).free_spans
unfolding deallocate_span
deallocate_span-IsSized ptr n pc known pos alone h =
    let next = ptr + n * page_size in
    let (sized, has) = merge-IsSized ptr next pc pos alone h in
    rw known (push_free-IsSized ptr (merge ptr next pc) has sized)

pub deallocate_span_frame :
    (ptr n b : ℕ) (pc : PageCache)
    → mem ptr pc.span_map ≡ true
    → b ≢ ptr
    → cover pc.free_spans b ≡ 0
    → IsSized pc.pages pc.free_spans
    → ((deallocate_span ptr n pc).pages b ≡ pc.pages b)
      × (mem b pc.span_map ≡ true → mem b (deallocate_span ptr n pc).span_map ≡ true)
unfolding deallocate_span push_free
deallocate_span_frame ptr n b pc known ne taken h =
    rw known (merge_frame ptr (ptr + n * page_size) b pc ne taken h)
