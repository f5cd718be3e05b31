-- ===== src/Dispatch/Steps/Kept.antt =====
-- What the sends, the queues and the bindings of a request keep of the server.
use linux.Base.{
  ℕ, ◌≡◌, refl, subst, Bool, true, false, Option, none, some, List, [], ◌∷◌, Bytes, if◌then◌else◌,
}
use linux.Registry.{ClientContext, set_online_user}
use linux.Registry.Placed.{IsPlaced, IsPlaced-kept}
use linux.Tasks.Bound.{IsCounted, enqueue_task-IsCounted}
use linux.Dispatch.State.{
  Server, Task, send, send_all, send_each, enqueue_db_task, enqueue_redis_task, bind_account,
}

module _ {ℓ κ} {S : Type ℓ} {D : Type κ} where
  -- Every client stands in its shard, and both queues count their tasks.
  pub record IsSound (sv : Server S D) : Type 0 where
    pub placed : IsPlaced sv.registry
    pub db_counted : IsCounted sv.db_tasks
    pub redis_counted : IsCounted sv.redis_tasks

  pub data AllSome : Option (Server S D) → Type (ℓ ⊔ κ) where
    none_sound : AllSome none
    some_sound : {sv : Server S D} → IsSound sv → AllSome (some sv)

  pub kept_if : (b : Bool) {x y : Server S D} → IsSound x → IsSound y → IsSound (if b then x else y)
  kept_if true p q = p
  kept_if false p q = q

  pub kept_some :
      (b : Bool) {x y : Option (Server S D)} → AllSome x → AllSome y → AllSome (if b then x else y)
  kept_some true p q = p
  kept_some false p q = q

  -- What a step changes besides the registry and the queues plays no part.
  pub same :
      {x y : Server S D}
      → x.registry ≡ y.registry
      → x.db_tasks ≡ y.db_tasks
      → x.redis_tasks ≡ y.redis_tasks
      → IsSound x
      → IsSound y
  same r d q s = record {
    placed = subst IsPlaced r s.placed;
    db_counted = subst IsCounted d s.db_counted;
    redis_counted = subst IsCounted q s.redis_counted;
  }

  pub send-IsSound :
      (ctx : ClientContext) (t : ℕ) (b : Bytes) (sv : Server S D)
      → IsSound sv
      → IsSound (send ctx t b sv)
  unfolding send
  send-IsSound ctx t b sv s = same refl refl refl s

  pub send_all-IsSound :
      (ctxs : List ClientContext) (t : ℕ) (b : Bytes) (sv : Server S D)
      → IsSound sv
      → IsSound (send_all ctxs t b sv)
  unfolding send_all
  send_all-IsSound [] t b sv s = s
  send_all-IsSound (c ∷ ctxs) t b sv s =
      send_all-IsSound ctxs t b (send c t b sv) (send-IsSound c t b sv s)

  pub send_each-IsSound :
      (ctx : ClientContext) (msgs : List Bytes) (sv : Server S D)
      → IsSound sv
      → IsSound (send_each ctx msgs sv)
  unfolding send_each
  send_each-IsSound ctx [] sv s = s
  send_each-IsSound ctx (m ∷ msgs) sv s =
      send_each-IsSound ctx msgs (send ctx 1 m sv) (send-IsSound ctx 1 m sv s)

  pub enqueue_db_task-IsSound :
      (task : Task) (sv : Server S D) → IsSound sv → IsSound (enqueue_db_task task sv).1
  unfolding enqueue_db_task
  enqueue_db_task-IsSound task sv s = record {
    placed = s.placed;
    db_counted = enqueue_task-IsCounted task sv.db_tasks s.db_counted;
    redis_counted = s.redis_counted;
  }

  pub enqueue_redis_task-IsSound :
      (task : Task) (sv : Server S D) → IsSound sv → IsSound (enqueue_redis_task task sv).1
  unfolding enqueue_redis_task
  enqueue_redis_task-IsSound task sv s = record {
    placed = s.placed;
    db_counted = s.db_counted;
    redis_counted = enqueue_task-IsCounted task sv.redis_tasks s.redis_counted;
  }

  pub bind_account-IsSound :
      (hash : Bytes → ℕ) (id : Bytes) (ctx : ClientContext) (sv : Server S D)
      → IsSound sv
      → IsSound (bind_account hash id ctx sv)
  unfolding bind_account
  bind_account-IsSound hash id ctx sv s =
      let online = set_online_user hash id ctx sv.registry in
      let (_, _, placed, _, _) = IsPlaced-kept hash ctx 0 id sv.registry s.placed in
      let (_, _, _, assigned, _) = IsPlaced-kept hash ctx 0 id online placed in
      record { placed = assigned; db_counted = s.db_counted; redis_counted = s.redis_counted }
