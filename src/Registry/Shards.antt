-- ===== src/Registry/Shards.antt =====
-- A map in shards finds what one map would find.
use linux.Base.{
  ℕ, ◌≡◌, refl, sym, ap₂, ◌∙◌, ◌≢◌, inl, inr, Bool, true, false, Option, none, some, List, [], ◌∷◌,
  ◌==◌, if◌then◌else◌, ==_refl, Bool-cases, true_ne_false,
}
use linux.Registry.{find, erase, insert, at_shard}

-- A map from keys that `same` tells apart exactly.
module _ {ℓ κ} {K : Type ℓ} {V : Type κ} (same : K → K → Bool)
    (same_refl : (k : K) → same k k ≡ true) (exact : (j k : K) → same j k ≡ true → j ≡ k) where
  pub find-erase :
      (j k : K) (m : List (K × V))
      → find same k (erase same j m) ≡ (if same j k then none else find same k m)
  unfolding find erase
  find-erase j k [] = elim (Bool-cases (same j k)) [ inl e ↦ rw e refl | inr e ↦ rw e refl ]
  find-erase j k ((i, v) ∷ m) = elim (Bool-cases (same i j)) [
    | inl e ↦ rw (e, find-erase j k m, exact i j e) (if_twice (same j k) v (find same k m))
    | inr e ↦
        rw (e, find-erase j k m)
          (if_swap (same i k) (same j k) v (find same k m)
            (λ f g. clash e (exact i k f) (exact j k g)))
  ]
    where
      if_twice :
          (b : Bool) (v : V) (rest : Option V)
          → (if b then none else rest) ≡ (if b then none else if b then some v else rest)
      if_twice true v rest = refl
      if_twice false v rest = refl

      if_swap :
          (b c : Bool) (v : V) (rest : Option V)
          → (b ≡ true → c ≢ true)
          → (if b then some v else if c then none else rest)
            ≡ (if c then none else if b then some v else rest)
      if_swap false c v rest h = refl
      if_swap true false v rest h = refl
      if_swap true true v rest h = absurd (h refl refl)

      clash : same i j ≡ false → i ≡ k → j ≡ k → ⊥
      clash e f g = true_ne_false (sym (ap₂ same f g ∙ same_refl k) ∙ e)

  pub find-insert :
      (j k : K) (v : V) (m : List (K × V))
      → find same k (insert same j v m) ≡ (if same j k then some v else find same k m)
  unfolding insert find
  find-insert j k v m = rw (find-erase j k m) (if_hidden (same j k) v (find same k m))
    where
      if_hidden :
          (b : Bool) (v : V) (rest : Option V)
          → (if b then some v else if b then none else rest) ≡ (if b then some v else rest)
      if_hidden true v rest = refl
      if_hidden false v rest = refl

  -- A change of the shard of one key, seen from another key.
  pub find-at_shard :
      (index : K → ℕ) (j k : K) (f : List (K × V) → List (K × V)) (hit : Option V)
      → ((m : List (K × V)) → find same k (f m) ≡ (if same j k then hit else find same k m))
      → (shards : ℕ → List (K × V))
      → find same k (at_shard (index j) f shards (index k))
        ≡ (if same j k then hit else find same k (shards (index k)))
  unfolding at_shard
  find-at_shard index j k f hit law shards = elim (Bool-cases (index k == index j)) [
    | inl e ↦ rw e (law (shards (index k)))
    | inr e ↦ rw (e, apart e) refl
  ]
    where
      apart : (index k == index j) ≡ false → same j k ≡ false
      apart e = elim (Bool-cases (same j k)) [
        | inl f ↦ absurd (true_ne_false (sym (rw (exact j k f) (==_refl (index k))) ∙ e))
        | inr f ↦ f
      ]
