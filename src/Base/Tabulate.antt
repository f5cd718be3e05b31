-- ===== src/Base/Tabulate.antt =====
-- Lists given by their elements: `tabulate n f` holds `f 0` to `f (n - 1)`.
use linux.Base.Lists.{length, get_or, take, drop}
use Prim.Native.Nat.{ℕ, zero, suc, ◌+◌, ◌-◌, ◌≤◌, ◌<◌}
use mathlib.Core.Path.{◌≡◌, refl, sym, ap, ap₂, ◌∙◌}
use mathlib.Core.List.{List, [], ◌∷◌, ◌++◌}
use native.Mathlib.Omega.{arith}

module _ {ℓ} {A : Type ℓ} where
  abbrev pub tabulate : ℕ → (ℕ → A) → List A
  tabulate zero f = []
  tabulate (suc n) f = f 0 ∷ tabulate n (λ i. f (suc i))

  pub length-tabulate : (n : ℕ) (f : ℕ → A) → length (tabulate n f) ≡ n
  length-tabulate zero f = refl
  length-tabulate (suc n) f = ap suc (length-tabulate n (λ i. f (suc i)))

  -- Two tables are equal if their entries are.
  pub tabulate_ext :
      (n : ℕ) (f g : ℕ → A) → ((i : ℕ) → i < n → f i ≡ g i) → tabulate n f ≡ tabulate n g
  tabulate_ext zero f g h = refl
  tabulate_ext (suc n) f g h =
      ap₂ ◌∷◌ (h 0 (omega arith))
        (tabulate_ext n (λ i. f (suc i)) (λ i. g (suc i)) (λ i lt. h (suc i) (omega arith)))

  -- Two tables in a row are one table.
  pub tabulate-append :
      (m n : ℕ) (f g h : ℕ → A)
      → ((i : ℕ) → i < m → h i ≡ f i)
      → ((i : ℕ) → i < n → h (m + i) ≡ g i)
      → tabulate m f ++ tabulate n g ≡ tabulate (m + n) h
  tabulate-append zero n f g h p q =
      let e : 0 + n ≡ n = omega arith in
      rw e (tabulate_ext n g h (λ i lt. let z : 0 + i ≡ i = omega arith in sym (q i lt) ∙ ap h z))
  tabulate-append (suc m) n f g h p q =
      let e : suc m + n ≡ suc (m + n) = omega arith in
      rw e (
        ap₂ ◌∷◌ (sym (p 0 (omega arith))) (
          tabulate-append m n (λ i. f (suc i)) g (λ i. h (suc i)) (λ i lt. p (suc i) (omega arith))
            (λ i lt. let z : suc (m + i) ≡ suc m + i = omega arith in ap h z ∙ q i lt)))

  -- A list is the table of its elements.
  pub tabulate-get_or : (xs : List A) (d : A) → tabulate (length xs) (λ i. get_or xs i d) ≡ xs
  tabulate-get_or [] d = refl
  tabulate-get_or (x ∷ xs) d = ap (◌∷◌ x) (tabulate-get_or xs d)

  pub take-tabulate : (k n : ℕ) (f : ℕ → A) → k ≤ n → take k (tabulate n f) ≡ tabulate k f
  take-tabulate zero n f h = refl
  take-tabulate (suc k) zero f h = absurd (omega arith)
  take-tabulate (suc k) (suc n) f h =
      ap (◌∷◌ (f 0)) (take-tabulate k n (λ i. f (suc i)) (omega arith))

  pub drop-tabulate :
      (k n : ℕ) (f : ℕ → A) → k ≤ n → drop k (tabulate n f) ≡ tabulate (n - k) (λ i. f (k + i))
  drop-tabulate zero n f h =
      let e : n - 0 ≡ n = omega arith in
      rw e (tabulate_ext n f (λ i. f (0 + i)) (λ i lt. ap f (omega arith)))
  drop-tabulate (suc k) zero f h = absurd (omega arith)
  drop-tabulate (suc k) (suc n) f h =
      let e : suc n - suc k ≡ n - k = omega arith in
      rw e (
        drop-tabulate k n (λ i. f (suc i)) (omega arith)
        ∙ tabulate_ext (n - k) (λ i. f (suc (k + i))) (λ i. f (suc k + i))
            (λ i lt. ap f (omega arith)))

  -- A part of a list as a table.
  pub slice-tabulate :
      (p n : ℕ) (xs : List A) (d : A)
      → p + n ≤ length xs
      → take n (drop p xs) ≡ tabulate n (λ i. get_or xs (p + i) d)
  slice-tabulate zero zero xs d h = refl
  slice-tabulate zero (suc n) [] d h = absurd (omega arith)
  slice-tabulate zero (suc n) (x ∷ xs) d h = ap (◌∷◌ x) (
      slice-tabulate zero n xs d (omega arith)
      ∙ tabulate_ext n (λ i. get_or xs (0 + i) d) (λ i. get_or (x ∷ xs) (0 + suc i) d)
          (λ i lt. let e : 0 + suc i ≡ suc (0 + i) = omega arith in rw e))
  slice-tabulate (suc p) n [] d h = let e : n ≡ 0 = omega arith in rw e
  slice-tabulate (suc p) n (x ∷ xs) d h =
      slice-tabulate p n xs d (omega arith)
      ∙ tabulate_ext n (λ i. get_or xs (p + i) d) (λ i. get_or (x ∷ xs) (suc p + i) d)
          (λ i lt. let e : suc p + i ≡ suc (p + i) = omega arith in rw e)
