-- ===== src/Pool/PageCache/Conserved.antt =====
-- What is given out leaves the free spans, and what comes back joins them, page for page.
use linux.Base.{
  ℕ, ◌+◌, ◌-◌, ◌*◌, ◌≤◌, ◌≡◌, refl, sym, ap, subst, ◌⊎◌, inl, inr, true, Option, none, some, List,
  [], ◌∷◌, arith, ltb, if◌then◌else◌, ==_refl, Bool-cases, Option-cases, is_empty,
}
use linux.Pool.PageCache.{
  PageCache, FreeSpans, page_size, mem, remove, update, free_list, put_list, erase_list,
  lower_bound, record_span, split, from_system, take_span, allocate_span, merge, push_free,
  deallocate_span,
}
use linux.Pool.PageCache.Cover.{
  over, cover_list, cover, IsAscending, over-split, cover-put_list, cover-erase_list,
  cover_list-remove, put_list-IsAscending, erase_list-IsAscending,
}

-- The free lists are in the order of their keys.
abbrev pub IsOrdered : PageCache → Type 0
IsOrdered pc = IsAscending 0 pc.free_spans

pub push_free-cover :
    (ptr : ℕ) (pc : PageCache) (x : ℕ)
    → IsOrdered pc
    → (cover (push_free ptr pc).free_spans x ≡ cover pc.free_spans x + over ptr (pc.pages ptr) x)
      × IsOrdered (push_free ptr pc)
unfolding push_free cover_list
push_free-cover ptr pc x h =
    let n = pc.pages ptr in
    let l = free_list n pc.free_spans in
    (
      omega (arith, cover-put_list n 0 (ptr ∷ l) pc.free_spans x h),
      put_list-IsAscending n 0 (ptr ∷ l) pc.free_spans (omega arith) h,
    )

pub merge-cover :
    (ptr num_pages : ℕ) (pc : PageCache) (x : ℕ)
    → IsOrdered pc
    → pc.pages ptr ≡ num_pages
    → let pc' = merge ptr (ptr + num_pages * page_size) pc in
      (cover pc'.free_spans x + over ptr (pc'.pages ptr) x
        ≡ cover pc.free_spans x + over ptr num_pages x)
      × IsOrdered pc'
unfolding merge update
merge-cover ptr num_pages pc x h size =
    let next = ptr + num_pages * page_size in
    let m = pc.pages next in
    let list = free_list m pc.free_spans in
    elim (Bool-cases (mem next pc.span_map)) [
      | inl e ↦ elim (Bool-cases (mem next list)) [
        | inl f ↦
            rw (e, f, ==_refl ptr)
              (
                omega (
                  arith,
                  cover-put_list m 0 (remove next list) pc.free_spans x h,
                  cover_list-remove m next list x f,
                  over-split ptr num_pages m x,
                  ap (λ k. over ptr (k + m) x) size,
                ),
                put_list-IsAscending m 0 (remove next list) pc.free_spans (omega arith) h,
              )
        | inr f ↦
            rw (e, f)
              (
                omega
                    (arith, cover-put_list m 0 list pc.free_spans x h, ap (λ k. over ptr k x) size),
                put_list-IsAscending m 0 list pc.free_spans (omega arith) h,
              )
      ]
      | inr e ↦ rw e (ap (λ k. cover pc.free_spans x + over ptr k x) size, h)
    ]

-- `deallocateSpan` of a span of its size: an address is in as many free spans as before, and in one more if it is in the
-- span, merged with the one behind it or not.
pub deallocate_span-cover :
    (ptr num_pages : ℕ) (pc : PageCache) (x : ℕ)
    → IsOrdered pc
    → mem ptr pc.span_map ≡ true
    → pc.pages ptr ≡ num_pages
    → (cover (deallocate_span ptr num_pages pc).free_spans x
        ≡ cover pc.free_spans x + over ptr num_pages x)
      × IsOrdered (deallocate_span ptr num_pages pc)
unfolding deallocate_span
deallocate_span-cover ptr num_pages pc x h known size =
    let next = ptr + num_pages * page_size in
    let (merged, ordered) = merge-cover ptr num_pages pc x h size in
    let (pushed, ordered') = push_free-cover ptr (merge ptr next pc) x ordered in
    rw known (omega (arith, merged, pushed), ordered')

pub record_span-free : (a : ℕ) (pc : PageCache) → (record_span a pc).free_spans ≡ pc.free_spans
unfolding record_span
record_span-free a pc = elim (Bool-cases (mem a pc.span_map)) [
  | inl e ↦ rw e refl
  | inr e ↦ rw e refl
]

pub split-cover :
    (n span : ℕ) (pc : PageCache) (x : ℕ)
    → IsOrdered pc
    → n ≤ pc.pages span
    → (cover (split n span pc).free_spans x + over span n x
        ≡ cover pc.free_spans x + over span (pc.pages span) x)
      × IsOrdered (split n span pc)
unfolding split cover_list
split-cover n span pc x h le = elim (Bool-cases (ltb n (pc.pages span))) [
  | inl e ↦
      let left = pc.pages span - n in
      let new_span = span + n * page_size in
      let l = free_list left pc.free_spans in
      let whole : n + left ≡ pc.pages span = omega (arith, le) in
      rw e (
        omega (
          arith,
          cover-put_list left 0 (new_span ∷ l) pc.free_spans x h,
          over-split span n left x,
          ap (λ k. over span k x) whole,
        ),
        put_list-IsAscending left 0 (new_span ∷ l) pc.free_spans (omega arith) h,
      )
  | inr e ↦
      let same : pc.pages span ≡ n = ground (arith, le) in
      rw e (ap (λ k. cover pc.free_spans x + over span k x) (sym same), h)
]

-- The list that `lower_bound` found, without its first span.
unfoldable pub taken_free : ℕ → List ℕ → FreeSpans → FreeSpans
taken_free k next fs = if is_empty next then erase_list k fs else put_list k next fs

pub taken-cover :
    (k span : ℕ) (next : List ℕ) (fs : FreeSpans) (x : ℕ)
    → IsAscending 0 fs
    → free_list k fs ≡ span ∷ next
    → (cover (taken_free k next fs) x + over span k x ≡ cover fs x)
      × IsAscending 0 (taken_free k next fs)
unfolding taken_free cover_list
taken-cover k span [] fs x h found = (
  omega (arith, cover-erase_list k fs x, ap (λ l. cover_list k l x) found),
  erase_list-IsAscending k 0 fs h,
)
taken-cover k span (b ∷ next) fs x h found = (
  omega (arith, cover-put_list k 0 (b ∷ next) fs x h, ap (λ l. cover_list k l x) found),
  put_list-IsAscending k 0 (b ∷ next) fs (omega arith) h,
)

-- The free spans without one that was found.
abbrev pub without : ℕ → List ℕ → PageCache → PageCache
without k next pc = record pc { free_spans = taken_free k next pc.free_spans }

-- The two ways to a span: one that was free, cut to size, or new memory.
pub allocate_span-cases :
    (n : ℕ) (memory : Option ℕ) (pc : PageCache) (a : ℕ) (pc' : PageCache)
    → allocate_span n memory pc ≡ some (some a, pc')
    → ((k : ℕ) × (next : List ℕ) × (lower_bound n pc.free_spans ≡ some (k, a ∷ next))
        × (record_span a (split n a (without k next pc)) ≡ pc'))
      ⊎ ((memory ≡ some a) × (record_span a (record pc { pages = update a n pc.pages }) ≡ pc'))
unfolding allocate_span take_span from_system taken_free
allocate_span-cases n memory pc a pc' e = elim (Option-cases (lower_bound n pc.free_spans)) [
  | inl f ↦ inr (fresh memory (rw (allocate_span, f) at e))
  | inr ((k, l), f) ↦ inl (found k l f (rw (allocate_span, f) at e))
]
  where
    fresh :
        (m : Option ℕ)
        → ◌≡◌ {A = Option (Option ℕ × PageCache)} (some (from_system n m pc)) (some (some a, pc'))
        → (m ≡ some a) × (record_span a (record pc { pages = update a n pc.pages }) ≡ pc')
    fresh none e = cc
    fresh (some m) e =
        let same : m ≡ a = cc in
        let rest : record_span m (record pc { pages = update m n pc.pages }) ≡ pc' = cc in
        (
          ap some same,
          subst (λ b. record_span b (record pc { pages = update b n pc.pages }) ≡ pc') same rest,
        )

    found :
        (k : ℕ) (l : List ℕ)
        → lower_bound n pc.free_spans ≡ some (k, l)
        → take_span n (k, l) pc ≡ some (some a, pc')
        → (k : ℕ) × (next : List ℕ) × (lower_bound n pc.free_spans ≡ some (k, a ∷ next))
          × (record_span a (split n a (without k next pc)) ≡ pc')
    found k [] f e = cc
    found k (b ∷ next) f e =
        let same : b ≡ a = cc in
        let rest : record_span b (split n b (without k next pc)) ≡ pc' = cc in
        (
          k,
          next,
          subst (λ c. lower_bound n pc.free_spans ≡ some (k, c ∷ next)) same f,
          subst (λ c. record_span c (split n c (without k next pc)) ≡ pc') same rest,
        )

-- Without free spans the memory of the system is given out.
pub allocate_span-fresh :
    (n m : ℕ) (pc : PageCache)
    → pc.free_spans ≡ []
    → allocate_span n (some m) pc
      ≡ some (some m, record_span m (record pc { pages = update m n pc.pages }))
unfolding allocate_span from_system lower_bound
allocate_span-fresh n m pc e =
    let nothing : lower_bound n pc.free_spans ≡ none = rw e refl in rw (nothing, allocate_span) refl
