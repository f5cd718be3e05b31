-- ===== src/Registry/Sessions.antt =====
-- Who is found when an account is bound to a connection, and who a snapshot holds.
use linux.Base.{
  ℕ, ◌≡◌, refl, inl, inr, true, false, Option, none, some, List, [], ◌∷◌, Bytes, eqb, eqb_refl,
  ==_refl, Bool-cases, is_empty,
}
use linux.Registry.{
  ClientContext, Registry, find, insert, at_shard, user_shard_index, lock, get_online_ctx,
  set_online_user, named, named_in, assign_account, is_current_session_valid,
}

abbrev named_option : ℕ → Bytes → Option ClientContext → Option ClientContext
named_option serial id none = none
named_option serial id (some ctx) = some (named serial id ctx)

find-named_in :
    (serial : ℕ) (id k : Bytes) (m : List (Bytes × ClientContext))
    → find eqb k (named_in serial id m) ≡ named_option serial id (find eqb k m)
unfolding find named_in
find-named_in serial id k [] = refl
find-named_in serial id k ((j, v) ∷ m) = elim (Bool-cases (eqb j k)) [
  | inl e ↦ rw e refl
  | inr e ↦ rw e (find-named_in serial id k m)
]

-- `setOnlineUser` and then `accountID`, for a context that lives: the account finds the context, with the
-- account in it.
pub get_online_ctx-assign_account :
    (hash : Bytes → ℕ) (id : Bytes) (ctx : ClientContext) (r : Registry)
    → is_empty id ≡ false
    → r.destroyed ctx.serial ≡ false
    → get_online_ctx hash id (assign_account ctx.serial id (set_online_user hash id ctx r))
      ≡ some (record ctx { account_id = id })
unfolding get_online_ctx lock assign_account set_online_user at_shard insert find named
get_online_ctx-assign_account hash id ctx r h alive =
    rw
      (h, find-named_in, ==_refl (user_shard_index hash id), eqb_refl id, ==_refl ctx.serial, alive)
      refl

pub is_current_session_valid_refl :
    (ctx : ClientContext) → is_current_session_valid ctx ctx.fd ≡ true
unfolding is_current_session_valid
is_current_session_valid_refl ctx = ==_refl ctx.fd
