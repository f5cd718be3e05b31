-- ===== src/Registry/Directory/Refine.antt =====
-- Each operation of the registry does to the shards what it means.
use linux.Base.{
  ℕ, ◌≡◌, refl, sym, ap, ap₂, ◌∙◌, inl, inr, Bool, true, false, ◌&&◌, not, Option, none, some, List,
  [], ◌∷◌, Bytes, eqb, eqb_refl, eqb→eq, ◌==◌, if◌then◌else◌, ==_iff, ==_refl, Bool-cases, is_empty,
  true_ne_false,
}
use linux.Registry.{
  ClientContext, Registry, find, erase, insert, at_shard, named, named_in, client_shard_index,
  user_shard_index, add_client_ctx, remove_client_ctx, get_client_ctx_by_fd, get_online_ctx, lock,
  destroy_context, set_online_user, remove_online_user, assign_account, handle_disconnect,
}
use linux.Registry.Directory.Living.{lock-if, lock_same, lock-destroyed, lock-renamed}
use linux.Registry.Shards.{find-erase, find-insert, find-at_shard}
use linux.Registry.Placed.{empty_registry}
use linux.Registry.Directory.{
  empty_directory, Directory, Change, adds, removes, sets_online, removes_online, assigns,
  disconnects, destroys, found_online, without, renamed, changed, change, Agrees, change_all,
  changed_all,
}

abbrev Contexts : Type 0
Contexts = List (ℕ × ClientContext)

abbrev Users : Type 0
Users = List (Bytes × ClientContext)

client_changed :
    (fd' fd : ℕ) (f : Contexts → Contexts) (hit : Option ClientContext)
    → ((m : Contexts) → find ◌==◌ fd (f m) ≡ (if fd' == fd then hit else find ◌==◌ fd m))
    → (r : Registry)
    → get_client_ctx_by_fd fd
        (record r { client_shards = at_shard (client_shard_index fd') f r.client_shards })
      ≡ (if fd' == fd then hit else get_client_ctx_by_fd fd r)
unfolding get_client_ctx_by_fd
client_changed fd' fd f hit law r =
    find-at_shard ◌==◌ ==_refl (λ i j. (==_iff i j).0) client_shard_index fd' fd f hit law
      r.client_shards

module _ (hash : Bytes → ℕ) where
  online_changed :
      (b a : Bytes) (f : Users → Users) (hit : Option ClientContext)
      → is_empty b ≡ false
      → ((m : Users) → find eqb a (f m) ≡ (if eqb b a then hit else find eqb a m))
      → (r : Registry)
      → get_online_ctx hash a (record r {
        online_user_shards = at_shard (user_shard_index hash b) f r.online_user_shards;
      })
        ≡ (if not (is_empty b) && eqb b a then lock r.destroyed hit else get_online_ctx hash a r)
  unfolding lock found_online get_online_ctx eqb
  online_changed [] a f hit full law r = absurd (true_ne_false full)
  online_changed (x ∷ b) [] f hit full law r = refl
  online_changed (x ∷ b) (y ∷ a) f hit full law r =
      ap (lock r.destroyed) (
        find-at_shard eqb eqb_refl eqb→eq (user_shard_index hash) (x ∷ b) (y ∷ a) f hit law
          r.online_user_shards)
      ∙ lock-if r.destroyed (eqb (x ∷ b) (y ∷ a)) hit
          (find eqb (y ∷ a) (r.online_user_shards (user_shard_index hash (y ∷ a))))

  adds-Agrees :
      (ctx : ClientContext) (r : Registry) (d : Directory)
      → Agrees hash r d
      → Agrees hash (add_client_ctx ctx r) (changed (adds ctx) d)
  unfolding lock found_online changed add_client_ctx get_online_ctx
  adds-Agrees ctx r d h = record {
    same_client = λ fd.
        client_changed ctx.fd fd (insert ◌==◌ ctx.fd ctx) (some ctx)
          (find-insert ◌==◌ ==_refl (λ i j. (==_iff i j).0) ctx.fd fd ctx) r
        ∙ ap (λ rest. if ctx.fd == fd then some ctx else rest) (h.same_client fd);
    same_online = h.same_online;
    same_destroyed = h.same_destroyed;
  }

  removes-Agrees :
      (fd' : ℕ) (r : Registry) (d : Directory)
      → Agrees hash r d
      → Agrees hash (remove_client_ctx fd' r) (changed (removes fd') d)
  unfolding lock found_online changed remove_client_ctx get_online_ctx
  removes-Agrees fd' r d h = record {
    same_client = λ fd.
        client_changed fd' fd (erase ◌==◌ fd') none
          (find-erase ◌==◌ ==_refl (λ i j. (==_iff i j).0) fd' fd) r
        ∙ ap (λ rest. if fd' == fd then none else rest) (h.same_client fd);
    same_online = h.same_online;
    same_destroyed = h.same_destroyed;
  }

  removes_online-Agrees :
      (account_id : Bytes) (r : Registry) (d : Directory)
      → Agrees hash r d
      → Agrees hash (remove_online_user hash account_id r) (without account_id d)
  unfolding lock found_online remove_online_user get_client_ctx_by_fd
  removes_online-Agrees [] r d h = record {
    same_client = h.same_client;
    same_online = h.same_online;
    same_destroyed = h.same_destroyed;
  }
  removes_online-Agrees (x ∷ b) r d h = record {
    same_client = h.same_client;
    same_online = λ a.
        online_changed (x ∷ b) a (erase eqb (x ∷ b)) none refl
          (find-erase eqb eqb_refl eqb→eq (x ∷ b) a) r
        ∙ ap (λ rest. if eqb (x ∷ b) a then none else rest) (h.same_online a)
        ∙ sym (lock-if d.destroyed (eqb (x ∷ b) a) none (d.online a));
    same_destroyed = h.same_destroyed;
  }

  sets_online-Agrees :
      (account_id : Bytes) (ctx : ClientContext) (r : Registry) (d : Directory)
      → Agrees hash r d
      → Agrees hash (set_online_user hash account_id ctx r) (changed (sets_online account_id ctx) d)
  unfolding lock found_online changed set_online_user get_client_ctx_by_fd
  sets_online-Agrees [] ctx r d h = record {
    same_client = h.same_client;
    same_online = h.same_online;
    same_destroyed = h.same_destroyed;
  }
  sets_online-Agrees (x ∷ b) ctx r d h = record {
    same_client = h.same_client;
    same_online = λ a.
        online_changed (x ∷ b) a (insert eqb (x ∷ b) ctx) (some ctx) refl
          (find-insert eqb eqb_refl eqb→eq (x ∷ b) a ctx) r
        ∙ ap₂ (λ u v. if eqb (x ∷ b) a then u else v)
            (lock_same r.destroyed d.destroyed h.same_destroyed (some ctx)) (h.same_online a)
        ∙ sym (lock-if d.destroyed (eqb (x ∷ b) a) (some ctx) (d.online a));
    same_destroyed = h.same_destroyed;
  }

  find-named_in :
      {K : Type 0} (same : K → K → Bool) (k : K) (serial : ℕ) (account_id : Bytes)
      (m : List (K × ClientContext))
      → find same k (named_in serial account_id m) ≡ renamed serial account_id (find same k m)
  unfolding find named_in named
  find-named_in same k serial account_id [] = refl
  find-named_in same k serial account_id ((j, ctx) ∷ m) = elim (Bool-cases (same j k)) [
    | inl e ↦ rw e refl
    | inr e ↦ rw e (find-named_in same k serial account_id m)
  ]

  assigns-Agrees :
      (serial : ℕ) (account_id : Bytes) (r : Registry) (d : Directory)
      → Agrees hash r d
      → Agrees hash (assign_account serial account_id r) (changed (assigns serial account_id) d)
  unfolding lock found_online changed assign_account get_client_ctx_by_fd get_online_ctx
  assigns-Agrees serial account_id r d h = record {
    same_client = λ fd.
        find-named_in ◌==◌ fd serial account_id (r.client_shards (client_shard_index fd))
        ∙ ap (renamed serial account_id) (h.same_client fd);
    same_online = online;
    same_destroyed = h.same_destroyed;
  }
    where
      online :
          (a : Bytes)
          → get_online_ctx hash a (assign_account serial account_id r)
            ≡ found_online (changed (assigns serial account_id) d) a
      online [] =
          ap (renamed serial account_id) (h.same_online [])
          ∙ sym (lock-renamed d.destroyed serial account_id (d.online []))
      online (x ∷ a) =
          let held = r.online_user_shards (user_shard_index hash (x ∷ a)) in
          ap (lock r.destroyed) (find-named_in eqb (x ∷ a) serial account_id held)
          ∙ lock-renamed r.destroyed serial account_id (find eqb (x ∷ a) held)
          ∙ ap (renamed serial account_id) (h.same_online (x ∷ a))
          ∙ sym (lock-renamed d.destroyed serial account_id (d.online (x ∷ a)))

  destroys-Agrees :
      (serial : ℕ) (r : Registry) (d : Directory)
      → Agrees hash r d
      → Agrees hash (destroy_context serial r) (changed (destroys serial) d)
  unfolding lock found_online changed destroy_context get_client_ctx_by_fd get_online_ctx
  destroys-Agrees serial r d h = record {
    same_client = h.same_client;
    same_online = online;
    same_destroyed = λ s. ap (λ b. if s == serial then true else b) (h.same_destroyed s);
  }
    where
      online :
          (a : Bytes)
          → get_online_ctx hash a (destroy_context serial r)
            ≡ found_online (changed (destroys serial) d) a
      online [] =
          ap (lock (λ other. other == serial)) (h.same_online [])
          ∙ sym (lock-destroyed d.destroyed serial (d.online []))
      online (x ∷ a) =
          lock-destroyed r.destroyed serial
            (find eqb (x ∷ a) (r.online_user_shards (user_shard_index hash (x ∷ a))))
          ∙ ap (lock (λ other. other == serial)) (h.same_online (x ∷ a))
          ∙ sym (lock-destroyed d.destroyed serial (d.online (x ∷ a)))

  disconnects-Agrees :
      (fd : ℕ) (r : Registry) (d : Directory)
      → Agrees hash r d
      → Agrees hash (handle_disconnect hash fd r) (changed (disconnects fd) d)
  unfolding changed handle_disconnect
  disconnects-Agrees fd r d h = go (get_client_ctx_by_fd fd r) refl (sym (h.same_client fd))
    where
      go :
          (found : Option ClientContext)
          → get_client_ctx_by_fd fd r ≡ found
          → d.clients fd ≡ get_client_ctx_by_fd fd r
          → Agrees hash (handle_disconnect hash fd r) (changed (disconnects fd) d)
      go none e f = rw (e, f ∙ e, handle_disconnect, changed) h
      go (some ctx) e f =
          rw (e, f ∙ e, handle_disconnect, changed)
            (removes-Agrees fd (remove_online_user hash ctx.account_id r) (without ctx.account_id d)
              (removes_online-Agrees ctx.account_id r d h))

  change-Agrees :
      (c : Change) (r : Registry) (d : Directory)
      → Agrees hash r d
      → Agrees hash (change hash c r) (changed c d)
  unfolding change changed
  change-Agrees (adds ctx) r d h = adds-Agrees ctx r d h
  change-Agrees (removes fd) r d h = removes-Agrees fd r d h
  change-Agrees (sets_online account_id ctx) r d h = sets_online-Agrees account_id ctx r d h
  change-Agrees (removes_online account_id) r d h = removes_online-Agrees account_id r d h
  change-Agrees (assigns serial account_id) r d h = assigns-Agrees serial account_id r d h
  change-Agrees (disconnects fd) r d h = disconnects-Agrees fd r d h
  change-Agrees (destroys serial) r d h = destroys-Agrees serial r d h

  pub empty-Agrees : Agrees hash empty_registry empty_directory
  unfolding get_client_ctx_by_fd get_online_ctx find found_online lock
  empty-Agrees = record {
    same_client = λ fd. refl;
    same_online = λ a. none_online a;
    same_destroyed = λ s. refl;
  }
    where
      none_online : (a : Bytes) → get_online_ctx hash a empty_registry ≡ none
      none_online [] = refl
      none_online (x ∷ a) = refl

-- Whatever the hash of the accounts is: after any sequence of the operations that change the registry, among
-- them `handleDisconnect` and logins, and of contexts that are destroyed at any time, a descriptor finds in the
-- shards what it finds in a plain map, and an account the context that a plain map holds for it, or nothing when
-- that context has been destroyed; what the operations do to the plain maps is what `changed` says.
pub change_all-Agrees :
    (hash : Bytes → ℕ) (cs : List Change) (r : Registry) (d : Directory)
    → Agrees hash r d
    → Agrees hash (change_all hash cs r) (changed_all cs d)
unfolding change_all changed_all
change_all-Agrees hash [] r d h = h
change_all-Agrees hash (c ∷ cs) r d h =
    change_all-Agrees hash cs (change hash c r) (changed c d) (change-Agrees hash c r d h)
