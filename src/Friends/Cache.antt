-- ===== src/Friends/Cache.antt =====
-- What the cache of friend lists answers.
use linux.Base.{
  ℕ, ◌≡◌, refl, ap, inl, inr, Bool, false, not, none, some, [], ◌∷◌, Bytes, eqb_refl, ◌==◌,
  Bool-cases, is_empty,
}
use linux.Json.{take_while}
use linux.Database.Mysql.{Client}
use linux.Pending.Commands.{Redis, TextLaws, c_str}
use linux.Friends.{
  cache_seconds, cache_key, from_db, get_friend_list_json, invalidate_friend_list_cache,
}

take_while_idem : (p : ℕ → Bool) (s : Bytes) → take_while p (take_while p s) ≡ take_while p s
unfolding take_while
take_while_idem p [] = refl
take_while_idem p (c ∷ s) = elim (Bool-cases (p c)) [
  | inl e ↦ rw (e, e) (ap (λ t. c ∷ t) (take_while_idem p s))
  | inr e ↦ rw e refl
]

c_str_idem : (s : Bytes) → c_str (c_str s) ≡ c_str s
unfolding c_str
c_str_idem s = take_while_idem (λ c. not (c == 0)) s

module _ {ℓ κ} {S : Type ℓ} {D : Type κ} (redis : Redis S) (laws : TextLaws redis)
    (client : Client D) where
  open laws use {text, is_connected, get_reads, text-setex, text-del}

  found :
      (user v : Bytes) (s : S) (d : D)
      → is_empty user ≡ false
      → text (c_str (cache_key user)) s ≡ some v
      → ◌≡◌ {A = Bytes × (S × D)} (get_friend_list_json redis client user s d) (c_str v, (s, d))
  unfolding get_friend_list_json
  found user v s d h e = simp (h, is_connected, get_reads, e) refl

  missed :
      (user : Bytes) (s : S) (d : D)
      → is_empty user ≡ false
      → text (c_str (cache_key user)) s ≡ none
      → let (json, d') = from_db client user d in
        ◌≡◌ {A = Bytes × (S × D)}
          (get_friend_list_json redis client user s d)
          (json, (redis.setex (c_str (cache_key user)) cache_seconds (c_str json) s, d'))
  unfolding get_friend_list_json
  missed user s d h e = simp (h, is_connected, get_reads, e) refl

  invalidated :
      (user : Bytes) (s : S)
      → is_empty user ≡ false
      → text (c_str (cache_key user)) (invalidate_friend_list_cache redis user s) ≡ none
  unfolding invalidate_friend_list_cache
  invalidated user s h = simp (h, is_connected, text-del, eqb_refl) refl

  -- After an invalidation the list is read from the database, and the next reader of the same account gets the
  -- same text, up to its first NUL, without asking the database again.
  pub get_friend_list_json-invalidate :
      (user : Bytes) (s : S) (d e : D)
      → is_empty user ≡ false
      → let (json, (s', d')) =
          get_friend_list_json redis client user (invalidate_friend_list_cache redis user s) d in
        (◌≡◌ {A = Bytes × D} (json, d') (from_db client user d))
        × (◌≡◌ {A = Bytes × (S × D)}
            (get_friend_list_json redis client user s' e)
            (c_str json, (s', e)))
  get_friend_list_json-invalidate user s d e h =
      rw (missed user (invalidate_friend_list_cache redis user s) d h (invalidated user s h))
        (refl, again (from_db client user d).0 (invalidate_friend_list_cache redis user s))
    where
      again :
          (json : Bytes) (s : S)
          → ◌≡◌ {A = Bytes × (S × D)}
              (get_friend_list_json redis client user
                (redis.setex (c_str (cache_key user)) cache_seconds (c_str json) s)
                e)
              (c_str json, (redis.setex (c_str (cache_key user)) cache_seconds (c_str json) s, e))
      again json s =
          rw
            (
              found user (c_str json)
                  (redis.setex (c_str (cache_key user)) cache_seconds (c_str json) s) e h
                  (simp (text-setex, eqb_refl) refl),
              c_str_idem json,
            )
            refl
