-- ===== src/Registry/Placed.antt =====
-- Every client stands in the shard of its descriptor, under that descriptor, once.
pub mod Once
use linux.Base.{
  ℕ, zero, suc, ◌≡◌, refl, sym, ap, ◌∙◌, subst, inl, inr, Bool, true, false, Option, none, some,
  List, [], ◌∷◌, ◌++◌, arith, Bytes, All, All-append, ◌==◌, if◌then◌else◌, ==_refl, Bool-cases,
  is_empty,
}
use linux.Registry.{
  ClientContext, Registry, find, erase, insert, at_shard, client_shard_index, collected, values,
  shard_count, snapshot_all_clients, get_client_ctx_by_fd, add_client_ctx, remove_client_ctx,
  set_online_user, remove_online_user, handle_disconnect, named, named_in, assign_account,
  destroy_context,
}
use linux.Registry.Lookup.{find-erase_fd, find-erase_other_fd}

-- A shard: its clients have its index, their descriptor as key, and no descriptor twice.
pub IsShard : ℕ → List (ℕ × ClientContext) → Type 0
IsShard i [] = Unit
IsShard i ((fd, ctx) ∷ m) =
    (ctx.fd ≡ fd) × (client_shard_index fd ≡ i) × (find ◌==◌ fd m ≡ none) × IsShard i m

pub IsPlaced : Registry → Type 0
unfolding IsShard
IsPlaced r = (i : ℕ) → IsShard i (r.client_shards i)

abbrev pub empty_registry : Registry
empty_registry = record {
  client_shards = λ i. [];
  online_user_shards = λ i. [];
  destroyed = λ s. false;
}

-- A server starts without clients.
pub empty_registry-IsPlaced : IsPlaced empty_registry
unfolding IsPlaced IsShard
empty_registry-IsPlaced i = tt

still_none :
    (j k : ℕ) (m : List (ℕ × ClientContext))
    → find ◌==◌ j m ≡ none
    → find ◌==◌ j (erase ◌==◌ k m) ≡ none
still_none j k m h = elim (Bool-cases (j == k)) [
  | inl e ↦
      let same : j ≡ k = ground arith in
      subst (λ x. find ◌==◌ j (erase ◌==◌ x m) ≡ none) same (find-erase_fd j m)
  | inr e ↦ find-erase_other_fd k j m (ground arith) ∙ h
]

erase-IsShard : (i k : ℕ) (m : List (ℕ × ClientContext)) → IsShard i m → IsShard i (erase ◌==◌ k m)
unfolding IsShard erase
erase-IsShard i k [] h = h
erase-IsShard i k ((fd, ctx) ∷ m) (own, placed, new, rest) = elim (Bool-cases (fd == k)) [
  | inl e ↦ rw e (erase-IsShard i k m rest)
  | inr e ↦ rw e (own, placed, still_none fd k m new, erase-IsShard i k m rest)
]

named_in-none :
    (serial : ℕ) (id : Bytes) (k : ℕ) (m : List (ℕ × ClientContext))
    → find ◌==◌ k m ≡ none
    → find ◌==◌ k (named_in serial id m) ≡ none
unfolding find named_in
named_in-none serial id k [] h = refl
named_in-none serial id k ((fd, ctx) ∷ m) h = first (fd == k) h (named_in-none serial id k m)
  where
    first :
        (c : Bool)
        → (if c then some ctx else find ◌==◌ k m) ≡ none
        → (find ◌==◌ k m ≡ none → find ◌==◌ k (named_in serial id m) ≡ none)
        → (if c then some (named serial id ctx) else find ◌==◌ k (named_in serial id m)) ≡ none
    first true h rest = cc
    first false h rest = rest h

named_in-IsShard :
    (serial : ℕ) (id : Bytes) (i : ℕ) (m : List (ℕ × ClientContext))
    → IsShard i m
    → IsShard i (named_in serial id m)
unfolding IsShard named_in named
named_in-IsShard serial id i [] h = h
named_in-IsShard serial id i ((fd, ctx) ∷ m) (own, placed, new, rest) = (
  own_fd (ctx.serial == serial),
  placed,
  named_in-none serial id fd m new,
  named_in-IsShard serial id i m rest,
)
  where
    own_fd : (b : Bool) → (if b then record ctx { account_id = id } else ctx).fd ≡ fd
    own_fd true = own
    own_fd false = own

at_shard-IsShard :
    (k : ℕ) (f : List (ℕ × ClientContext) → List (ℕ × ClientContext))
    (shards : ℕ → List (ℕ × ClientContext))
    → ((i : ℕ) → IsShard i (shards i))
    → ((m : List (ℕ × ClientContext)) → IsShard k m → IsShard k (f m))
    → (i : ℕ) → IsShard i (at_shard k f shards i)
unfolding at_shard
at_shard-IsShard k f shards h kept i = elim (Bool-cases (i == k)) [
  | inl e ↦
      let same : k ≡ i = ground arith in
      rw e (subst (λ j. IsShard j (f (shards j))) same (kept (shards k) (h k)))
  | inr e ↦ rw e (h i)
]

-- Clients that come and go, accounts that come online and go, a binding and the end of a connection keep every
-- client in its place.
pub IsPlaced-kept :
    (hash : Bytes → ℕ) (ctx : ClientContext) (fd : ℕ) (id : Bytes) (r : Registry)
    → IsPlaced r
    → IsPlaced (add_client_ctx ctx r)
      × IsPlaced (remove_client_ctx fd r)
      × IsPlaced (set_online_user hash id ctx r)
      × IsPlaced (assign_account ctx.serial id r)
      × IsPlaced (handle_disconnect hash fd r)
unfolding IsPlaced IsShard add_client_ctx remove_client_ctx assign_account set_online_user
    remove_online_user handle_disconnect insert
IsPlaced-kept hash ctx fd id r h = (
  added,
  removed r h,
  online,
  λ i. named_in-IsShard ctx.serial id i (r.client_shards i) (h i),
  ended,
)
  where
    added : IsPlaced (add_client_ctx ctx r)
    added =
        at_shard-IsShard (client_shard_index ctx.fd) (insert ◌==◌ ctx.fd ctx) r.client_shards h
          (λ m k. (
            refl,
            refl,
            find-erase_fd ctx.fd m,
            erase-IsShard (client_shard_index ctx.fd) ctx.fd m k,
          ))

    removed : (r : Registry) → IsPlaced r → IsPlaced (remove_client_ctx fd r)
    removed r h =
        at_shard-IsShard (client_shard_index fd) (erase ◌==◌ fd) r.client_shards h
          (erase-IsShard (client_shard_index fd) fd)

    online : IsPlaced (set_online_user hash id ctx r)
    online = elim (Bool-cases (is_empty id)) [ inl e ↦ rw e h | inr e ↦ rw e h ]

    offline : (id : Bytes) → IsPlaced (remove_online_user hash id r)
    offline id = elim (Bool-cases (is_empty id)) [ inl e ↦ rw e h | inr e ↦ rw e h ]

    ended : IsPlaced (handle_disconnect hash fd r)
    ended = found (get_client_ctx_by_fd fd r)
      where
        found :
            (o : Option ClientContext)
            → IsPlaced (elim o [
              | none ↦ r
              | some ctx ↦ remove_client_ctx fd (remove_online_user hash ctx.account_id r)
            ])
        found none = h
        found (some c) = removed (remove_online_user hash c.account_id r) (offline c.account_id)

-- The end of a context leaves the clients in their places.
pub destroy_context-IsPlaced :
    (serial : ℕ) (r : Registry) → IsPlaced r → IsPlaced (destroy_context serial r)
unfolding IsPlaced destroy_context
destroy_context-IsPlaced serial r h = h

All-map :
    {A : Type 0} (P Q : A → Type 0) (xs : List A) → ((x : A) → P x → Q x) → All P xs → All Q xs
All-map P Q [] f h = h
All-map P Q (x ∷ xs) f (p, ps) = (f x p, All-map P Q xs f ps)

shard_found :
    (i : ℕ) (m : List (ℕ × ClientContext))
    → IsShard i m
    → All (λ c. (find ◌==◌ c.fd m ≡ some c) × (client_shard_index c.fd ≡ i)) (values m)
unfolding IsShard values find
shard_found i [] h = h
shard_found i ((fd, ctx) ∷ m) (own, placed, new, rest) = (
  (rw (own, ==_refl fd) refl, rw own placed),
  All-map (λ c. (find ◌==◌ c.fd m ≡ some c) × (client_shard_index c.fd ≡ i))
      (λ c.
        ((if fd == c.fd then some ctx else find ◌==◌ c.fd m) ≡ some c)
        × (client_shard_index c.fd ≡ i))
      (values m) (λ c p. (later c p.0, p.1)) (shard_found i m rest),
)
  where
    later :
        (c : ClientContext)
        → find ◌==◌ c.fd m ≡ some c
        → (if fd == c.fd then some ctx else find ◌==◌ c.fd m) ≡ some c
    later c e = elim (Bool-cases (fd == c.fd)) [
      | inl same ↦
          let eq : fd ≡ c.fd = ground arith in
          let gone : find ◌==◌ c.fd m ≡ none = subst (λ k. find ◌==◌ k m ≡ none) eq new in cc
      | inr other ↦ rw other e
    ]

pub values_of_append : (m n : List (ℕ × ClientContext)) → values (m ++ n) ≡ values m ++ values n
unfolding values
values_of_append [] n = refl
values_of_append ((k, v) ∷ m) n = ap (λ t. v ∷ t) (values_of_append m n)

-- The clients of a snapshot are those that their descriptors find.
pub snapshot_all_clients-found :
    (r : Registry)
    → IsPlaced r
    → All (λ c. get_client_ctx_by_fd c.fd r ≡ some c) (snapshot_all_clients r)
unfolding snapshot_all_clients collected get_client_ctx_by_fd IsPlaced
snapshot_all_clients-found r h = upto shard_count
  where
    Found : ClientContext → Type 0
    Found c = find ◌==◌ c.fd (r.client_shards (client_shard_index c.fd)) ≡ some c

    upto : (n : ℕ) → All Found (values (collected r.client_shards n))
    upto zero = tt
    upto (suc n) =
        subst (All Found) (sym (values_of_append (collected r.client_shards n) (r.client_shards n)))
          (All-append Found (values (collected r.client_shards n)) (values (r.client_shards n))
            (upto n)
            (All-map
              (λ c. (find ◌==◌ c.fd (r.client_shards n) ≡ some c) × (client_shard_index c.fd ≡ n))
              Found (values (r.client_shards n))
              (λ c p. subst (λ i. find ◌==◌ c.fd (r.client_shards i) ≡ some c) (sym p.1) p.0)
              (shard_found n (r.client_shards n) (h n))))
