-- ===== src/Registry/Lookup.antt =====
-- What the registry finds after it was changed.
use linux.Base.{
  ℕ, ◌%◌, ◌≡◌, refl, ap, ◌≢◌, inl, inr, false, none, some, List, [], ◌∷◌, arith, Bytes, eqb, ◌==◌,
  ==_refl, Bool-cases, Option-cases, is_empty,
}
use linux.Registry.{
  ClientContext, Registry, find, erase, insert, at_shard, client_shard_index, user_shard_index,
  add_client_ctx, remove_client_ctx, get_client_ctx_by_fd, lock, get_online_ctx, remove_online_user,
  handle_disconnect,
}

at_shard_same {ℓ} : {A : Type ℓ} (i : ℕ) (f : A → A) (s : ℕ → A) → at_shard i f s i ≡ f (s i)
unfolding at_shard
at_shard_same i f s = rw (==_refl i) refl

pub find-erase_fd : (k : ℕ) (m : List (ℕ × ClientContext)) → find ◌==◌ k (erase ◌==◌ k m) ≡ none
unfolding find erase
find-erase_fd k [] = refl
find-erase_fd k ((j, v) ∷ m) = elim (Bool-cases (j == k)) [
  | inl e ↦ rw e (find-erase_fd k m)
  | inr e ↦ rw (e, e) (find-erase_fd k m)
]

pub find-erase_other_fd :
    (j k : ℕ) (m : List (ℕ × ClientContext)) → k ≢ j → find ◌==◌ k (erase ◌==◌ j m) ≡ find ◌==◌ k m
unfolding find erase
find-erase_other_fd j k [] ne = refl
find-erase_other_fd j k ((i, v) ∷ m) ne = ground (arith, find-erase_other_fd j k m ne)

find-erase_user : (k : Bytes) (m : List (Bytes × ClientContext)) → find eqb k (erase eqb k m) ≡ none
unfolding find erase
find-erase_user k [] = refl
find-erase_user k ((j, v) ∷ m) = elim (Bool-cases (eqb j k)) [
  | inl e ↦ rw e (find-erase_user k m)
  | inr e ↦ rw (e, e) (find-erase_user k m)
]

-- After `addClientCtx` the descriptor finds the context that was added, and every other descriptor finds what
-- it found before, whichever shard it is in.
pub get_client_ctx_by_fd-add_client_ctx :
    (ctx : ClientContext) (fd : ℕ) (r : Registry)
    → (get_client_ctx_by_fd ctx.fd (add_client_ctx ctx r) ≡ some ctx)
      × (fd ≢ ctx.fd → get_client_ctx_by_fd fd (add_client_ctx ctx r) ≡ get_client_ctx_by_fd fd r)
unfolding get_client_ctx_by_fd add_client_ctx client_shard_index at_shard insert find
get_client_ctx_by_fd-add_client_ctx ctx fd r = (
  rw (==_refl (ctx.fd % 128), ==_refl ctx.fd) refl,
  λ ne. elim (Bool-cases (fd % 128 == ctx.fd % 128)) [
    | inl e ↦
        rw (e, ne_test ctx.fd fd ne) (find-erase_other_fd ctx.fd fd (r.client_shards (fd % 128)) ne)
    | inr e ↦ rw e refl
  ],
)
  where
    ne_test : (a b : ℕ) → b ≢ a → (a == b) ≡ false
    ne_test a b h = ground arith

removed : (fd : ℕ) (r : Registry) → get_client_ctx_by_fd fd (remove_client_ctx fd r) ≡ none
unfolding get_client_ctx_by_fd remove_client_ctx
removed fd r =
    rw (at_shard_same (client_shard_index fd) (erase ◌==◌ fd) r.client_shards)
      (find-erase_fd fd (r.client_shards (client_shard_index fd)))

logged_out :
    (hash : Bytes → ℕ) (id : Bytes) (r : Registry)
    → get_online_ctx hash id (remove_online_user hash id r) ≡ none
unfolding get_online_ctx lock remove_online_user
logged_out hash id r = elim (Bool-cases (is_empty id)) [
  | inl e ↦ rw e refl
  | inr e ↦
      rw (e, at_shard_same (user_shard_index hash id) (erase eqb id) r.online_user_shards)
        (ap (lock r.destroyed)
          (find-erase_user id (r.online_user_shards (user_shard_index hash id))))
]

-- After `handleDisconnect` the descriptor finds nothing, whatever it found before.
pub get_client_ctx_by_fd-handle_disconnect :
    (hash : Bytes → ℕ) (fd : ℕ) (r : Registry)
    → get_client_ctx_by_fd fd (handle_disconnect hash fd r) ≡ none
unfolding handle_disconnect
get_client_ctx_by_fd-handle_disconnect hash fd r = elim (Option-cases (get_client_ctx_by_fd fd r)) [
  | inl e ↦ rw (e, handle_disconnect) e
  | inr (ctx, e) ↦ rw (e, handle_disconnect) (removed fd (remove_online_user hash ctx.account_id r))
]

-- After `handleDisconnect` the descriptor is not found, and the account of its context, if it has one, is not
-- online: whatever connection the account was registered with. An account that has logged in again on
-- another descriptor is not online any more, though it is connected.
pub handle_disconnect-offline :
    (hash : Bytes → ℕ) (ctx : ClientContext) (r : Registry)
    → get_client_ctx_by_fd ctx.fd r ≡ some ctx
    → (get_client_ctx_by_fd ctx.fd (handle_disconnect hash ctx.fd r) ≡ none)
      × (get_online_ctx hash ctx.account_id (handle_disconnect hash ctx.fd r) ≡ none)
unfolding handle_disconnect get_online_ctx remove_client_ctx
handle_disconnect-offline hash ctx r h =
    rw (handle_disconnect, h)
      (removed ctx.fd (remove_online_user hash ctx.account_id r), logged_out hash ctx.account_id r)
