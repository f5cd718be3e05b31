-- ===== src/Pool/PageCache/Sizes.antt =====
-- Each free span has the size of its list.
use linux.Base.{
  ℕ, ◌≤◌, ◌<◌, ◌≡◌, sym, ap, ◌∙◌, subst, inl, inr, true, List, [], ◌∷◌, arith, All, ltb, ◌==◌,
  ==_iff, Bool-cases, length, true_ne_false,
}
use linux.Pool.PageCache.{FreeSpans, mem, remove, free_list, put_list, erase_list}
use linux.Pool.PageCache.Cover.{over, cover_list, cover}

abbrev pub HaveSize : (ℕ → ℕ) → ℕ → List ℕ → Type 0
HaveSize pages k l = All (λ a. pages a ≡ k) l

abbrev pub IsSized : (ℕ → ℕ) → FreeSpans → Type 0
IsSized pages fs = All (λ e. (0 < length e.1 → 0 < e.0) × HaveSize pages e.0 e.1) fs

pub over_self : (a k : ℕ) → 0 < k → over a k a ≡ 1
over_self a k h = ground arith

pub over_le : (a k x : ℕ) → over a k x ≤ 1
over_le a k x = ground arith

pub put_list-IsSized :
    (pages : ℕ → ℕ) (n : ℕ) (l : List ℕ) (fs : FreeSpans)
    → (0 < length l → 0 < n)
    → HaveSize pages n l
    → IsSized pages fs
    → IsSized pages (put_list n l fs)
unfolding put_list
put_list-IsSized pages n l [] pos hl h = ((pos, hl), tt)
put_list-IsSized pages n l ((k, m) ∷ fs) pos hl (hk, h) = elim (Bool-cases (ltb n k)) [
  | inl e ↦ rw e ((pos, hl), (hk, h))
  | inr e ↦ elim (Bool-cases (k == n)) [
    | inl f ↦ rw (e, f) ((pos, hl), h)
    | inr f ↦ rw (e, f) (hk, put_list-IsSized pages n l fs pos hl h)
  ]
]

pub erase_list-IsSized :
    (pages : ℕ → ℕ) (n : ℕ) (fs : FreeSpans) → IsSized pages fs → IsSized pages (erase_list n fs)
unfolding erase_list
erase_list-IsSized pages n [] h = tt
erase_list-IsSized pages n ((k, m) ∷ fs) (hk, h) = elim (Bool-cases (k == n)) [
  | inl f ↦ rw f h
  | inr f ↦ rw f (hk, erase_list-IsSized pages n fs h)
]

pub free_list-HaveSize :
    (pages : ℕ → ℕ) (n : ℕ) (fs : FreeSpans)
    → IsSized pages fs
    → HaveSize pages n (free_list n fs) × (0 < length (free_list n fs) → 0 < n)
unfolding free_list
free_list-HaveSize pages n [] h = (tt, λ p. absurd (omega arith))
free_list-HaveSize pages n ((k, m) ∷ fs) (hk, h) = elim (Bool-cases (k == n)) [
  | inl f ↦
      let same : k ≡ n = (==_iff k n).0 f in
      rw f (subst (λ j. HaveSize pages j m × (0 < length m → 0 < j)) same (hk.1, hk.0))
  | inr f ↦ rw f (free_list-HaveSize pages n fs h)
]

pub remove-HaveSize :
    (pages : ℕ → ℕ) (k a : ℕ) (l : List ℕ) → HaveSize pages k l → HaveSize pages k (remove a l)
unfolding remove
remove-HaveSize pages k a [] h = tt
remove-HaveSize pages k a (b ∷ l) (hb, h) = elim (Bool-cases (b == a)) [
  | inl f ↦ rw f h
  | inr f ↦ rw f (hb, remove-HaveSize pages k a l h)
]

-- Sizes that are kept wherever a free span lies are kept for all of them.
list_frame :
    (pages pages' : ℕ → ℕ) (k : ℕ) (l : List ℕ)
    → (0 < length l → 0 < k)
    → ((a : ℕ) → 0 < cover_list k l a → pages' a ≡ pages a)
    → HaveSize pages k l
    → HaveSize pages' k l
unfolding cover_list
list_frame pages pages' k [] pos f h = tt
list_frame pages pages' k (a ∷ l) pos f (ha, h) = (
  f a (omega (arith, over_self a k (pos (omega arith)))) ∙ ha,
  list_frame pages pages' k l (λ p. pos (omega arith)) (λ b p. f b (omega (arith, p))) h,
)

pub IsSized-frame :
    (pages pages' : ℕ → ℕ) (fs : FreeSpans)
    → ((a : ℕ) → 0 < cover fs a → pages' a ≡ pages a)
    → IsSized pages fs
    → IsSized pages' fs
unfolding cover
IsSized-frame pages pages' [] f h = tt
IsSized-frame pages pages' ((k, l) ∷ fs) f ((pos, hl), h) = (
  (pos, list_frame pages pages' k l pos (λ a p. f a (omega (arith, p))) hl),
  IsSized-frame pages pages' fs (λ a p. f a (omega (arith, p))) h,
)

-- A span of a list is covered.
pub cover_list-mem : (k a : ℕ) (l : List ℕ) → 0 < k → mem a l ≡ true → 0 < cover_list k l a
unfolding cover_list mem
cover_list-mem k a [] pos h = absurd (true_ne_false (sym h))
cover_list-mem k a (b ∷ l) pos h = elim (Bool-cases (b == a)) [
  | inl f ↦ omega (arith, over_self a k pos, ap (λ c. over c k a) ((==_iff b a).0 f))
  | inr f ↦ omega (arith, cover_list-mem k a l pos (rw f at h))
]

pub cover-free_list :
    (n : ℕ) (fs : FreeSpans) (x : ℕ) → cover_list n (free_list n fs) x ≤ cover fs x
unfolding cover free_list cover_list
cover-free_list n [] x = omega arith
cover-free_list n ((k, l) ∷ fs) x = elim (Bool-cases (k == n)) [
  | inl f ↦ rw f (omega (arith, ap (λ j. cover_list j l x) ((==_iff k n).0 f)))
  | inr f ↦ rw f (omega (arith, cover-free_list n fs x))
]
