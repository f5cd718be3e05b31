-- ===== src/Pool/PageCache/Allocate.antt =====
-- What `allocateSpan` returns when no list is empty.
use linux.Base.{
  ℕ, ◌≤◌, ◌≡◌, refl, ap, ◌∙◌, subst, ◌⊎◌, inl, inr, true, false, Option, none, some, List, [], ◌∷◌,
  arith, All, ltb, leb, if◌then◌else◌, leb→le, ==_refl, Bool-cases, Option-cases, is_empty,
}
use linux.Pool.PageCache.{
  PageCache, FreeSpans, mem, lower_bound, allocate_span, from_system, take_span, record_span, split,
  update, erase_list, put_list,
}

-- Each list has a span, and its spans have the size of its key.
abbrev pub IsFilled : (ℕ → ℕ) → FreeSpans → Type 0
IsFilled pages fs = All (λ e. (is_empty e.1 ≡ false) × All (λ a. pages a ≡ e.0) e.1) fs

lower_bound-filled :
    (pages : ℕ → ℕ) (n : ℕ) (fs : FreeSpans) (k : ℕ) (l : List ℕ)
    → IsFilled pages fs
    → lower_bound n fs ≡ some (k, l)
    → (n ≤ k) × (is_empty l ≡ false) × All (λ a. pages a ≡ k) l
unfolding lower_bound
lower_bound-filled pages n [] k l h e = cc
lower_bound-filled pages n ((j, m) ∷ fs) k l (h, hs) e = elim (Bool-cases (leb n j)) [
  | inl f ↦
      let same : ◌≡◌ {A = ℕ × List ℕ} (j, m) (k, l) = ground arith in
      subst (λ q. (n ≤ q.0) × (is_empty q.1 ≡ false) × All (λ a. pages a ≡ q.0) q.1) same
        (leb→le n j f, h.0, h.1)
  | inr f ↦ lower_bound-filled pages n fs k l hs (ground arith)
]

pub record_span-mem : (a : ℕ) (pc : PageCache) → mem a (record_span a pc).span_map ≡ true
unfolding record_span mem
record_span-mem a pc = elim (Bool-cases (mem a pc.span_map)) [
  | inl e ↦ rw e e
  | inr e ↦ rw e (ground (arith, ==_refl a))
]

pub record_span-pages : (a : ℕ) (pc : PageCache) → (record_span a pc).pages ≡ pc.pages
unfolding record_span
record_span-pages a pc = elim (Bool-cases (mem a pc.span_map)) [
  | inl e ↦ rw e refl
  | inr e ↦ rw e refl
]

pub split-pages :
    (n span : ℕ) (pc : PageCache) → n ≤ pc.pages span → (split n span pc).pages span ≡ n
unfolding split update
split-pages n span pc le = elim (Bool-cases (ltb n (pc.pages span))) [
  | inl e ↦ rw (e, ==_refl span) refl
  | inr e ↦ rw e (ground arith)
]

-- A span of `n` pages that is registered.
abbrev Served : ℕ → PageCache → ℕ → Type 0
Served n pc a = (pc.pages a ≡ n) × (mem a pc.span_map ≡ true)

served : (n a : ℕ) (pc : PageCache) → pc.pages a ≡ n → Served n (record_span a pc) a
served n a pc h = (ap (λ f. f a) (record_span-pages a pc) ∙ h, record_span-mem a pc)

-- With a span in every list, a request is answered without a null access: by nothing, when no free span is
-- large enough and the system has no memory, or by a span of just the pages asked for, which is in
-- `spanMap_`.
pub allocate_span-size :
    (n : ℕ) (memory : Option ℕ) (pc : PageCache)
    → IsFilled pc.pages pc.free_spans
    → (answer : Option ℕ) × (pc' : PageCache) × (allocate_span n memory pc ≡ some (answer, pc'))
      × (((answer ≡ none) × (memory ≡ none) × (lower_bound n pc.free_spans ≡ none))
          ⊎ ((a : ℕ) × (answer ≡ some a) × (pc'.pages a ≡ n) × (mem a pc'.span_map ≡ true)))
unfolding allocate_span from_system take_span
allocate_span-size n memory pc h = elim (Option-cases (lower_bound n pc.free_spans)) [
  | inl e ↦ rw (allocate_span, e) (ask memory)
  | inr ((k, l), e) ↦
      rw (allocate_span, e) (serve k l (lower_bound-filled pc.pages n pc.free_spans k l h e))
]
  where
    Result : Option (ℕ × List ℕ) → Option (Option ℕ × PageCache) → Option ℕ → Type 0
    Result found out m =
        (answer : Option ℕ) × (pc' : PageCache) × (out ≡ some (answer, pc'))
        × (((answer ≡ none) × (m ≡ none) × (found ≡ none))
            ⊎ ((a : ℕ) × (answer ≡ some a) × (pc'.pages a ≡ n) × (mem a pc'.span_map ≡ true)))

    ask : (m : Option ℕ) → Result none (some (from_system n m pc)) m
    ask none = (none, pc, refl, inl (refl, refl, refl))
    ask (some a) =
        let here : update a n pc.pages a ≡ n = unfold update in rw (==_refl a) refl in
        (
          some a,
          record_span a (record pc { pages = update a n pc.pages }),
          refl,
          inr (
            a,
            refl,
            (served n a (record pc { pages = update a n pc.pages }) here).0,
            (served n a (record pc { pages = update a n pc.pages }) here).1,
          ),
        )

    serve :
        (k : ℕ) (l : List ℕ)
        → (n ≤ k) × (is_empty l ≡ false) × All (λ a. pc.pages a ≡ k) l
        → Result (some (k, l)) (take_span n (k, l) pc) memory
    serve k [] (le, h, hs) = cc
    serve k (a ∷ next) (le, h, hs) =
        let free =
          if is_empty next then erase_list k pc.free_spans else put_list k next pc.free_spans in
        let rest : PageCache = record pc { free_spans = free } in
        (
          some a,
          record_span a (split n a rest),
          refl,
          inr (
            a,
            refl,
            (served n a (split n a rest) (split-pages n a rest (omega (arith, hs.0)))).0,
            (served n a (split n a rest) (split-pages n a rest (omega (arith, hs.0)))).1,
          ),
        )
