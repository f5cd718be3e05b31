-- ===== src/Pool/PageCache/Cover.antt =====
-- Which addresses the free spans cover, counted.
use linux.Base.{
  ℕ, ◌+◌, ◌*◌, ◌≤◌, ◌<◌, ◌≡◌, refl, sym, ap, subst, inl, inr, true, false, ◌&&◌, some, List, [],
  ◌∷◌, arith, ltb, leb, ◌==◌, if◌then◌else◌, ltb→lt, leb→le, ==_iff, ==_refl, Bool-cases,
  true_ne_false,
}
use linux.Pool.PageCache.{
  FreeSpans, page_size, mem, remove, lower_bound, free_list, put_list, erase_list,
}

-- 1 for an address in a span, 0 for any other.
abbrev pub over : ℕ → ℕ → ℕ → ℕ
over a pages x = if leb a x && ltb x (a + pages * page_size) then 1 else 0

unfoldable pub cover_list : ℕ → List ℕ → ℕ → ℕ
cover_list k [] x = 0
cover_list k (a ∷ l) x = over a k x + cover_list k l x

-- How many free spans an address is in.
unfoldable pub cover : FreeSpans → ℕ → ℕ
unfolding cover_list
cover [] x = 0
cover ((k, l) ∷ fs) x = cover_list k l x + cover fs x

-- The keys of a `std::map` ascend.
unfoldable pub IsAscending : ℕ → FreeSpans → Type 0
IsAscending lo [] = Unit
IsAscending lo ((k, l) ∷ fs) = (lo ≤ k) × IsAscending (k + 1) fs

-- A span is its first pages and the rest.
pub over-split : (a n m x : ℕ) → over a (n + m) x ≡ over a n x + over (a + n * page_size) m x
over-split a n m x = ground arith

free_list-above : (n lo : ℕ) (fs : FreeSpans) → IsAscending lo fs → n < lo → free_list n fs ≡ []
unfolding free_list IsAscending
free_list-above n lo [] h lt = refl
free_list-above n lo ((k, l) ∷ fs) (le, h) lt =
    let other : (k == n) ≡ false = ground arith in
    rw other (free_list-above n (k + 1) fs h (omega arith))

pub cover-put_list :
    (n lo : ℕ) (l : List ℕ) (fs : FreeSpans) (x : ℕ)
    → IsAscending lo fs
    → cover (put_list n l fs) x + cover_list n (free_list n fs) x ≡ cover fs x + cover_list n l x
unfolding cover put_list free_list IsAscending
cover-put_list n lo l [] x h = omega arith
cover-put_list n lo l ((k, m) ∷ fs) x (le, h) = elim (Bool-cases (ltb n k)) [
  | inl e ↦
      let other : (k == n) ≡ false = ground arith in
      rw (e, other, free_list-above n (k + 1) fs h (ground arith)) (omega arith)
  | inr e ↦ elim (Bool-cases (k == n)) [
    | inl f ↦ rw (e, f) (omega (arith, ap (λ j. cover_list j m x) ((==_iff k n).0 f)))
    | inr f ↦ rw (e, f) (omega (arith, cover-put_list n (k + 1) l fs x h))
  ]
]

pub cover-erase_list :
    (n : ℕ) (fs : FreeSpans) (x : ℕ)
    → cover (erase_list n fs) x + cover_list n (free_list n fs) x ≡ cover fs x
unfolding cover erase_list free_list
cover-erase_list n [] x = refl
cover-erase_list n ((k, m) ∷ fs) x = elim (Bool-cases (k == n)) [
  | inl f ↦ rw f (omega (arith, ap (λ j. cover_list j m x) ((==_iff k n).0 f)))
  | inr f ↦ rw f (omega (arith, cover-erase_list n fs x))
]

pub cover_list-remove :
    (k a : ℕ) (l : List ℕ) (x : ℕ)
    → mem a l ≡ true
    → cover_list k (remove a l) x + over a k x ≡ cover_list k l x
unfolding cover_list remove mem
cover_list-remove k a [] x h = absurd (true_ne_false (sym h))
cover_list-remove k a (b ∷ l) x h = elim (Bool-cases (b == a)) [
  | inl f ↦ rw f (omega (arith, ap (λ c. over c k x) ((==_iff b a).0 f)))
  | inr f ↦ rw f (omega (arith, cover_list-remove k a l x (rw f at h)))
]

-- What `lower_bound` finds is the list of its key.
pub free_list-lower_bound :
    (n lo : ℕ) (fs : FreeSpans) (k : ℕ) (l : List ℕ)
    → IsAscending lo fs
    → lower_bound n fs ≡ some (k, l)
    → (free_list k fs ≡ l) × (lo ≤ k) × (n ≤ k)
unfolding lower_bound free_list IsAscending
free_list-lower_bound n lo [] k l h e = cc
free_list-lower_bound n lo ((j, m) ∷ fs) k l (le, h) e = elim (Bool-cases (leb n j)) [
  | inl f ↦
      let same : ◌≡◌ {A = ℕ × List ℕ} (j, m) (k, l) = ground arith in
      subst (λ q. (free_list q.0 ((j, m) ∷ fs) ≡ q.1) × (lo ≤ q.0) × (n ≤ q.0)) same
        (rw (free_list, ==_refl j) refl, le, leb→le n j f)
  | inr f ↦
      let (found, above, enough) = free_list-lower_bound n (j + 1) fs k l h (ground arith) in
      let other : (j == k) ≡ false = ground (arith, above) in
      (rw (free_list, other) found, omega (arith, above, le), enough)
]

pub put_list-IsAscending :
    (n lo : ℕ) (l : List ℕ) (fs : FreeSpans)
    → lo ≤ n
    → IsAscending lo fs
    → IsAscending lo (put_list n l fs)
unfolding put_list IsAscending
put_list-IsAscending n lo l [] le h = (le, tt)
put_list-IsAscending n lo l ((k, m) ∷ fs) le (lk, h) = elim (Bool-cases (ltb n k)) [
  | inl e ↦ rw e (le, (omega (arith, ltb→lt n k e), h))
  | inr e ↦ elim (Bool-cases (k == n)) [
    | inl f ↦ rw (e, f) (le, subst (λ j. IsAscending (j + 1) fs) ((==_iff k n).0 f) h)
    | inr f ↦ rw (e, f) (lk, put_list-IsAscending n (k + 1) l fs (ground arith) h)
  ]
]

pub erase_list-IsAscending :
    (n lo : ℕ) (fs : FreeSpans) → IsAscending lo fs → IsAscending lo (erase_list n fs)
unfolding erase_list IsAscending
erase_list-IsAscending n lo [] h = tt
erase_list-IsAscending n lo ((k, m) ∷ fs) (lk, h) = elim (Bool-cases (k == n)) [
  | inl f ↦ rw f (lower lo (k + 1) fs (omega arith) h)
  | inr f ↦ rw f (lk, erase_list-IsAscending n (k + 1) fs h)
]
  where
    lower : (lo hi : ℕ) (fs : FreeSpans) → lo ≤ hi → IsAscending hi fs → IsAscending lo fs
    lower lo hi [] le h = tt
    lower lo hi ((k, m) ∷ fs) le (lk, h) = (omega arith, h)
