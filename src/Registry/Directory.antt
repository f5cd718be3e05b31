-- ===== src/Registry/Directory.antt =====
-- The registry against two plain maps: what the shards are, and how keys are spread over them, is not seen.
pub mod Living
pub mod Refine
use linux.Base.{
  ℕ, ◌≡◌, Bool, true, false, ◌&&◌, not, Option, none, some, List, [], ◌∷◌, Bytes, eqb, ◌==◌,
  if◌then◌else◌, is_empty,
}
use linux.Registry.{
  ClientContext, Registry, add_client_ctx, remove_client_ctx, get_client_ctx_by_fd, get_online_ctx,
  lock, set_online_user, remove_online_user, assign_account, handle_disconnect, destroy_context,
}

-- The clients by descriptor, the context that was last registered for each account, and the contexts, by serial,
-- that have been destroyed.
pub record Directory : Type 0 where
  pub clients : ℕ → Option ClientContext
  pub online : Bytes → Option ClientContext
  pub destroyed : ℕ → Bool

abbrev pub empty_directory : Directory
empty_directory = record { clients = λ fd. none; online = λ a. none; destroyed = λ s. false }

-- What an account finds: the context that was registered, if it lives.
unfoldable pub found_online : Directory → Bytes → Option ClientContext
found_online d a = lock d.destroyed (d.online a)

-- The operations that change the registry, and the end of a context, which may come at any time.
pub data Change : Type 0 where
  adds : ClientContext → Change
  removes : (fd : ℕ) → Change
  sets_online : (account_id : Bytes) → ClientContext → Change
  removes_online : (account_id : Bytes) → Change
  assigns : (serial : ℕ) (account_id : Bytes) → Change
  disconnects : (fd : ℕ) → Change
  destroys : (serial : ℕ) → Change

abbrev pub without : Bytes → Directory → Directory
without account_id d = record d {
  online = λ a. if not (is_empty account_id) && eqb account_id a then none else d.online a;
}

abbrev pub renamed : ℕ → Bytes → Option ClientContext → Option ClientContext
renamed serial account_id none = none
renamed serial account_id (some ctx) =
    some (if ctx.serial == serial then record ctx { account_id = account_id } else ctx)

-- What each of them means.
pub changed : Change → Directory → Directory
changed (adds ctx) d = record d { clients = λ fd. if ctx.fd == fd then some ctx else d.clients fd }
changed (removes fd') d = record d { clients = λ fd. if fd' == fd then none else d.clients fd }
changed (sets_online account_id ctx) d = record d {
  online = λ a. if not (is_empty account_id) && eqb account_id a then some ctx else d.online a;
}
changed (removes_online account_id) d = without account_id d
changed (assigns serial account_id) d = record d {
  clients = λ fd. renamed serial account_id (d.clients fd);
  online = λ a. renamed serial account_id (d.online a);
}
changed (disconnects fd') d = elim (d.clients fd') [
  | none ↦ d
  | some ctx ↦ record (without ctx.account_id d) {
    clients = λ fd. if fd' == fd then none else d.clients fd;
  }
]
changed (destroys serial) d = record d {
  destroyed = λ other. if other == serial then true else d.destroyed other;
}

module _ (hash : Bytes → ℕ) where
  -- What the code does.
  pub change : Change → Registry → Registry
  change (adds ctx) r = add_client_ctx ctx r
  change (removes fd) r = remove_client_ctx fd r
  change (sets_online account_id ctx) r = set_online_user hash account_id ctx r
  change (removes_online account_id) r = remove_online_user hash account_id r
  change (assigns serial account_id) r = assign_account serial account_id r
  change (disconnects fd) r = handle_disconnect hash fd r
  change (destroys serial) r = destroy_context serial r

  pub record Agrees (r : Registry) (d : Directory) : Type 0 where
    pub same_client : (fd : ℕ) → get_client_ctx_by_fd fd r ≡ d.clients fd
    pub same_online : (a : Bytes) → get_online_ctx hash a r ≡ found_online d a
    pub same_destroyed : (serial : ℕ) → r.destroyed serial ≡ d.destroyed serial

  pub change_all : List Change → Registry → Registry
  unfolding change
  change_all [] r = r
  change_all (c ∷ cs) r = change_all cs (change c r)

pub changed_all : List Change → Directory → Directory
unfolding changed
changed_all [] d = d
changed_all (c ∷ cs) d = changed_all cs (changed c d)
