-- ===== src/Pool/PageCache/Split.antt =====
-- What `allocateSpan` writes to the sizes and to `spanMap_`.
use linux.Base.{
  ℕ, ◌+◌, ◌-◌, ◌*◌, ◌<◌, ◌≡◌, refl, ap, ◌∙◌, ◌≢◌, inl, inr, Bool, true, false, List, [], ◌∷◌, arith,
  ltb, ◌==◌, if◌then◌else◌, ltb→lt, ==_refl, Bool-cases,
}
use linux.Pool.PageCache.{
  PageCache, FreeSpans, page_size, mem, update, free_list, record_span, split,
}
use linux.Pool.PageCache.Cover.{over, cover}
use linux.Pool.PageCache.Conserved.{taken_free}
use linux.Pool.PageCache.Sizes.{
  HaveSize, IsSized, over_self, put_list-IsSized, erase_list-IsSized, free_list-HaveSize,
  IsSized-frame,
}

pub update_same : (a n : ℕ) (f : ℕ → ℕ) → update a n f a ≡ n
unfolding update
update_same a n f = rw (==_refl a) refl

pub update_other : (a n : ℕ) (f : ℕ → ℕ) (y : ℕ) → y ≢ a → update a n f y ≡ f y
unfolding update
update_other a n f y ne = ground arith

-- An address outside a span is not its first.
pub outside_ne : (a k y : ℕ) → 0 < k → over a k y ≡ 0 → y ≢ a
outside_ne a k y pos out =
    λ e. absurd (omega (arith, out, over_self a k pos, ap (λ b. over a k b) e))

outside_rest : (a n k y : ℕ) → n < k → over a k y ≡ 0 → y ≢ a + n * page_size
outside_rest a n k y lt out = λ e. absurd (ground (arith, out, e))

-- The sizes outside the span stay.
pub split_frame :
    (n a : ℕ) (pc : PageCache) (y : ℕ)
    → 0 < pc.pages a
    → over a (pc.pages a) y ≡ 0
    → (split n a pc).pages y ≡ pc.pages y
unfolding split
split_frame n a pc y pos out = elim (Bool-cases (ltb n (pc.pages a))) [
  | inl e ↦ rw e (
      update_other a n (update (a + n * page_size) (pc.pages a - n) pc.pages) y
        (outside_ne a (pc.pages a) y pos out)
      ∙ update_other (a + n * page_size) (pc.pages a - n) pc.pages y
          (outside_rest a n (pc.pages a) y (ltb→lt n (pc.pages a) e) out))
  | inr e ↦ rw e refl
]

pub split-span_map : (n a : ℕ) (pc : PageCache) → (split n a pc).span_map ≡ pc.span_map
unfolding split
split-span_map n a pc = elim (Bool-cases (ltb n (pc.pages a))) [
  | inl e ↦ rw e refl
  | inr e ↦ rw e refl
]

pub split-IsSized :
    (n a : ℕ) (pc : PageCache)
    → 0 < n
    → 0 < pc.pages a
    → ((y : ℕ) → 0 < cover pc.free_spans y → over a (pc.pages a) y ≡ 0)
    → IsSized pc.pages pc.free_spans
    → IsSized (split n a pc).pages (split n a pc).free_spans
unfolding split
split-IsSized n a pc pos has apart h = elim (Bool-cases (ltb n (pc.pages a))) [
  | inl e ↦
      let left = pc.pages a - n in
      let new_span = a + n * page_size in
      let pages' = update a n (update new_span left pc.pages) in
      let framed : IsSized pages' pc.free_spans =
        IsSized-frame pc.pages pages' pc.free_spans
          (λ y p. rw (e, split) at (split_frame n a pc y has (apart y p))) h in
      let here : pages' new_span ≡ left =
        update_other a n (update new_span left pc.pages) new_span (λ f. absurd (omega (arith, f)))
        ∙ update_same new_span left pc.pages in
      rw e (
        put_list-IsSized pages' left (new_span ∷ free_list left pc.free_spans) pc.free_spans
          (λ p. omega (arith, ltb→lt n (pc.pages a) e))
          (here, (free_list-HaveSize pages' left pc.free_spans framed).0) framed)
  | inr e ↦ rw e h
]

pub taken-IsSized :
    (pages : ℕ → ℕ) (k : ℕ) (next : List ℕ) (fs : FreeSpans)
    → 0 < k
    → HaveSize pages k next
    → IsSized pages fs
    → IsSized pages (taken_free k next fs)
unfolding taken_free
taken-IsSized pages k [] fs pos hn h = erase_list-IsSized pages k fs h
taken-IsSized pages k (b ∷ next) fs pos hn h =
    put_list-IsSized pages k (b ∷ next) fs (λ p. pos) hn h

pub record_span-still :
    (a b : ℕ) (pc : PageCache) → mem b pc.span_map ≡ true → mem b (record_span a pc).span_map ≡ true
unfolding record_span mem
record_span-still a b pc h = elim (Bool-cases (mem a pc.span_map)) [
  | inl e ↦ rw e h
  | inr e ↦ rw (e, h) (if_same (a == b))
]
  where
    if_same : (c : Bool) → (if c then true else true) ≡ true
    if_same true = refl
    if_same false = refl
