-- ===== src/Friends.antt =====
-- The friend list, from the cache in Redis or from the database: `getFriendListJson` and
-- `invalidateFriendListCache` of EpollChatServer.cpp.
pub mod Cache
use linux.Base.{ℕ, ◌||◌, not, ◌++◌, Bytes, if◌then◌else◌, codes, is_empty}
use linux.Texts.{build_friend_list_json}
use linux.Database.Mysql.{Client}
use linux.Database.{get_friend_list_from_db}
use linux.Pending.Commands.{Redis, Reply, string_reply, c_str}

pub cache_key : Bytes → Bytes
cache_key user = codes "chat:friends:" ++ user

abbrev pub cache_seconds : ℕ
cache_seconds = 300

module _ {ℓ} {S : Type ℓ} (redis : Redis S) where
  pub invalidate_friend_list_cache : Bytes → S → S
  invalidate_friend_list_cache user s =
      if is_empty user || not redis.connected then s else redis.del (c_str (cache_key user)) s

module _ {κ} {D : Type κ} (client : Client D) where
  pub from_db : Bytes → D → Bytes × D
  from_db user d =
      let (friends, d') = get_friend_list_from_db client user d in
      (build_friend_list_json friends, d')

module _ {ℓ κ} {S : Type ℓ} {D : Type κ} (redis : Redis S) (client : Client D) where
  -- What follows `GET`.
  got : Bytes → Reply × S → D → Bytes × (S × D)
  unfolding from_db
  got user (string_reply v, s) d = (c_str v, (s, d))
  got user (_, s) d =
      let (json, d') = from_db client user d in
      (json, (redis.setex (c_str (cache_key user)) cache_seconds (c_str json) s, d'))

  pub get_friend_list_json : Bytes → S → D → Bytes × (S × D)
  unfolding got
  get_friend_list_json user s d =
      let (json, d') = from_db client user d in
      if is_empty user || not redis.connected
      then (json, (s, d'))
      else got user (redis.get (c_str (cache_key user)) s) d
