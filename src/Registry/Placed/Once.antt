-- ===== src/Registry/Placed/Once.antt =====
-- A snapshot of the clients holds each of them once.
use linux.Base.{
  ℕ, zero, suc, ◌%◌, ◌≤◌, ◌<◌, ◌≡◌, refl, ap, ap₂, ◌∙◌, subst, ◌≢◌, inl, inr, true, false, Option,
  none, some, List, [], ◌∷◌, ◌++◌, append-nil, arith, ◌==◌, if◌then◌else◌, Bool-cases,
}
use linux.Registry.{
  ClientContext, find, client_shard_index, collected, values, shard_count, Registry,
  snapshot_all_clients, get_client_ctx_by_fd,
}
use linux.Registry.Placed.{IsShard, IsPlaced, values_of_append}

-- The clients of a list with a descriptor.
pub of_fd : ℕ → List ClientContext → List ClientContext
of_fd fd [] = []
of_fd fd (c ∷ cs) = let rest = of_fd fd cs in if c.fd == fd then c ∷ rest else rest

abbrev pub at_most_one : Option ClientContext → List ClientContext
at_most_one none = []
at_most_one (some c) = c ∷ []

of_fd-append :
    (fd : ℕ) (cs ds : List ClientContext) → of_fd fd (cs ++ ds) ≡ of_fd fd cs ++ of_fd fd ds
unfolding of_fd
of_fd-append fd [] ds = refl
of_fd-append fd (c ∷ cs) ds = elim (Bool-cases (c.fd == fd)) [
  | inl e ↦ rw e (ap (λ t. c ∷ t) (of_fd-append fd cs ds))
  | inr e ↦ rw e (of_fd-append fd cs ds)
]

other_shard :
    (fd i : ℕ) (m : List (ℕ × ClientContext))
    → IsShard i m
    → client_shard_index fd ≢ i
    → of_fd fd (values m) ≡ []
unfolding IsShard values of_fd client_shard_index
other_shard fd i [] h ne = refl
other_shard fd i ((k, ctx) ∷ m) (own, placed, new, rest) ne = elim (Bool-cases (ctx.fd == fd)) [
  | inl e ↦ let same : fd ≡ k = ground (arith, own) in absurd (ne (ap (λ t. t % 128) same ∙ placed))
  | inr e ↦ rw e (other_shard fd i m rest ne)
]

own_shard :
    (fd i : ℕ) (m : List (ℕ × ClientContext))
    → IsShard i m
    → of_fd fd (values m) ≡ at_most_one (find ◌==◌ fd m)
unfolding IsShard values of_fd find
own_shard fd i [] h = refl
own_shard fd i ((k, ctx) ∷ m) (own, placed, new, rest) = elim (Bool-cases (k == fd)) [
  | inl e ↦
      let same : k ≡ fd = ground arith in
      let first : (ctx.fd == fd) ≡ true = ground (arith, own) in
      let later : of_fd fd (values m) ≡ [] =
        own_shard fd i m rest ∙ ap at_most_one (subst (λ j. find ◌==◌ j m ≡ none) same new) in
      rw (e, first) (ap (λ t. ctx ∷ t) later)
  | inr e ↦
      let first : (ctx.fd == fd) ≡ false = ground (arith, own) in
      rw (e, first) (own_shard fd i m rest)
]

-- A snapshot holds, of every descriptor, the client that it finds, once, and no other.
pub snapshot_all_clients-once :
    (fd : ℕ) (r : Registry)
    → IsPlaced r
    → of_fd fd (snapshot_all_clients r) ≡ at_most_one (get_client_ctx_by_fd fd r)
unfolding snapshot_all_clients collected get_client_ctx_by_fd IsPlaced client_shard_index of_fd
snapshot_all_clients-once fd r h = upto_above shard_count (omega arith)
  where
    split :
        (n : ℕ)
        → of_fd fd (values (collected r.client_shards n ++ r.client_shards n))
          ≡ of_fd fd (values (collected r.client_shards n)) ++ of_fd fd (values (r.client_shards n))
    split n =
        ap (of_fd fd) (values_of_append (collected r.client_shards n) (r.client_shards n))
        ∙ of_fd-append fd (values (collected r.client_shards n)) (values (r.client_shards n))

    upto_below : (n : ℕ) → n ≤ fd % 128 → of_fd fd (values (collected r.client_shards n)) ≡ []
    upto_below zero le = refl
    upto_below (suc n) le =
        split n
        ∙ ap₂ (λ a b. a ++ b) (upto_below n (omega (arith, le)))
            (other_shard fd n (r.client_shards n) (h n) (omega (arith, le)))

    upto_above :
        (n : ℕ)
        → fd % 128 < n
        → of_fd fd (values (collected r.client_shards n))
          ≡ at_most_one (find ◌==◌ fd (r.client_shards (fd % 128)))
    upto_above zero lt = absurd (omega (arith, lt))
    upto_above (suc n) lt = elim (Bool-cases (fd % 128 == n)) [
      | inl e ↦
          let same : n ≡ fd % 128 = ground arith in
          split n
          ∙ ap₂ (λ a b. a ++ b) (upto_below n (omega (arith, same)))
              (own_shard fd n (r.client_shards n) (h n))
          ∙ ap (λ j. at_most_one (find ◌==◌ fd (r.client_shards j))) same
      | inr e ↦
          let below : fd % 128 < n = ground (arith, lt) in
          let other : (fd % 128) ≢ n = ground arith in
          split n
          ∙ ap₂ (λ a b. a ++ b) (upto_above n below)
              (other_shard fd n (r.client_shards n) (h n) other)
          ∙ append-nil (at_most_one (find ◌==◌ fd (r.client_shards (fd % 128))))
    ]
