-- ===== src/Registry.antt =====
-- The clients by descriptor and the online users by account, each in 128 shards, and `handleDisconnect`.
-- `serial` tells one `ClientContext` from another with the same descriptor. The online map holds weak pointers:
-- a context in it is found only until it is destroyed, which is when its last shared pointer goes.
pub mod Lookup
pub mod Placed
pub mod Sessions
pub mod Shards
pub mod Directory
use linux.Base.{
  ℕ, zero, suc, ◌%◌, Bool, true, Option, none, some, List, [], ◌∷◌, ◌++◌, Bytes, eqb, ◌==◌,
  if◌then◌else◌, is_empty,
}

pub record ClientContext : Type 0 where
  pub serial : ℕ
  pub fd : ℕ
  pub account_id : Bytes

abbrev pub shard_count : ℕ
shard_count = 128

-- `std::unordered_map`, for keys told apart by `same`.
module _ {ℓ κ} {K : Type ℓ} {V : Type κ} (same : K → K → Bool) where
  pub find : K → List (K × V) → Option V
  find k [] = none
  find k ((j, v) ∷ m) = let rest = find k m in if same j k then some v else rest

  pub erase : K → List (K × V) → List (K × V)
  erase k [] = []
  erase k ((j, v) ∷ m) = let rest = erase k m in if same j k then rest else (j, v) ∷ rest

  pub insert : K → V → List (K × V) → List (K × V)
  unfolding erase
  insert k v m = (k, v) ∷ erase k m

pub record Registry : Type 0 where
  pub client_shards : ℕ → List (ℕ × ClientContext)
  pub online_user_shards : ℕ → List (Bytes × ClientContext)
  -- The contexts, by serial, that have been destroyed.
  pub destroyed : ℕ → Bool

pub at_shard {ℓ} : {A : Type ℓ} → ℕ → (A → A) → (ℕ → A) → ℕ → A
at_shard i f shards j = if j == i then f (shards j) else shards j

pub client_shard_index : ℕ → ℕ
client_shard_index fd = fd % shard_count

unfoldable pub add_client_ctx : ClientContext → Registry → Registry
add_client_ctx ctx r = record r {
  client_shards = at_shard (client_shard_index ctx.fd) (insert ◌==◌ ctx.fd ctx) r.client_shards;
}

pub remove_client_ctx : ℕ → Registry → Registry
remove_client_ctx fd r = record r {
  client_shards = at_shard (client_shard_index fd) (erase ◌==◌ fd) r.client_shards;
}

pub get_client_ctx_by_fd : ℕ → Registry → Option ClientContext
get_client_ctx_by_fd fd r = find ◌==◌ fd (r.client_shards (client_shard_index fd))

-- The first shards' pairs, in order.
pub collected {ℓ κ} : {K : Type ℓ} {V : Type κ} → (ℕ → List (K × V)) → ℕ → List (K × V)
collected shards zero = []
collected shards (suc n) = collected shards n ++ shards n

pub values {ℓ κ} : {K : Type ℓ} {V : Type κ} → List (K × V) → List V
values [] = []
values ((k, v) ∷ m) = v ∷ values m

pub snapshot_all_clients : Registry → List ClientContext
unfolding collected values
snapshot_all_clients r = values (collected r.client_shards shard_count)

-- The users whose weak pointer still finds its context.
living : (ℕ → Bool) → List (Bytes × ClientContext) → List (Bytes × ClientContext)
living destroyed [] = []
living destroyed ((account_id, ctx) ∷ users) =
    let rest = living destroyed users in
    if destroyed ctx.serial then rest else (account_id, ctx) ∷ rest

pub snapshot_online_users : Registry → List (Bytes × ClientContext)
unfolding living
snapshot_online_users r = living r.destroyed (collected r.online_user_shards shard_count)

pub is_current_session_valid : ClientContext → ℕ → Bool
is_current_session_valid ctx expected_fd = ctx.fd == expected_fd

named : ℕ → Bytes → ClientContext → ClientContext
named serial account_id ctx =
    if ctx.serial == serial then record ctx { account_id = account_id } else ctx

named_in {ℓ} : {K : Type ℓ} → ℕ → Bytes → List (K × ClientContext) → List (K × ClientContext)
unfolding named
named_in serial account_id [] = []
named_in serial account_id ((k, ctx) ∷ m) =
    (k, named serial account_id ctx) ∷ named_in serial account_id m

-- `ctx->accountID = accountId`: both maps share the context.
pub assign_account : ℕ → Bytes → Registry → Registry
unfolding named_in
assign_account serial account_id r = record r {
  client_shards = λ i. named_in serial account_id (r.client_shards i);
  online_user_shards = λ i. named_in serial account_id (r.online_user_shards i);
}

-- The last shared pointer of a context goes.
pub destroy_context : ℕ → Registry → Registry
destroy_context serial r = record r {
  destroyed = λ other. if other == serial then true else r.destroyed other;
}

-- `std::weak_ptr::lock` of what a map holds.
pub lock : (ℕ → Bool) → Option ClientContext → Option ClientContext
lock destroyed none = none
lock destroyed (some ctx) = if destroyed ctx.serial then none else some ctx

-- `std::hash<std::string>` is a parameter.
module _ (hash : Bytes → ℕ) where
  pub user_shard_index : Bytes → ℕ
  user_shard_index account_id = hash account_id % shard_count

  pub set_online_user : Bytes → ClientContext → Registry → Registry
  set_online_user account_id ctx r = if is_empty account_id then r else record r {
    online_user_shards =
        at_shard (user_shard_index account_id) (insert eqb account_id ctx) r.online_user_shards;
  }

  pub get_online_ctx : Bytes → Registry → Option ClientContext
  unfolding lock
  get_online_ctx account_id r =
      if is_empty account_id
      then none
      else lock r.destroyed
          (find eqb account_id (r.online_user_shards (user_shard_index account_id)))

  pub remove_online_user : Bytes → Registry → Registry
  remove_online_user account_id r = if is_empty account_id then r else record r {
    online_user_shards =
        at_shard (user_shard_index account_id) (erase eqb account_id) r.online_user_shards;
  }

  -- `handleDisconnect`, without its calls of the kernel.
  pub handle_disconnect : ℕ → Registry → Registry
  unfolding remove_online_user
  handle_disconnect fd r = elim (get_client_ctx_by_fd fd r) [
    | none ↦ r
    | some ctx ↦ remove_client_ctx fd (remove_online_user ctx.account_id r)
  ]
