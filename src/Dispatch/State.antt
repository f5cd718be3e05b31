-- ===== src/Dispatch/State.antt =====
-- The state that requests share, the closures that `processPacket` queues, and what both are done with.
use linux.Base.{ℕ, Bool, Option, List, [], ◌∷◌, ◌++◌, Bytes}
use linux.Registry.{ClientContext, Registry, set_online_user, assign_account}
use linux.Snowflake.{Generator}
use linux.Tasks.{TaskQueue, enqueue_task}
use linux.ChatLog.{ChatLog, enqueue_chat_log}
use linux.Database
use linux.Database.Mysql.{Client}
use linux.Pending.Commands.{Redis}

-- The closures that are queued, with what they capture.
pub data Task : Type 0 where
  store_and_send :
      (ctx : ClientContext) (expected_fd : ℕ) (target : Bytes) (target_ctx : Option ClientContext)
      → (msg_id : ℕ) (enriched ack : Bytes) → Task
  login : (ctx : ClientContext) (expected_fd : ℕ) (user pass : Bytes) → Task
  ack_messages : (user : Bytes) (msg_ids : List ℕ) → Task
  read_history : (ctx : ClientContext) (expected_fd : ℕ) (last_time session_id : Bytes) → Task
  add_friend : (ctx : ClientContext) (expected_fd : ℕ) (user friend_name : Bytes) → Task
  invalidate : (user friend_name : Bytes) → Task
  list_friends : (ctx : ClientContext) (expected_fd : ℕ) (user : Bytes) → Task

-- A call of `sendPacket`: the serial of the context, the type, and the data.
abbrev pub Sent : Type 0
Sent = ℕ × ℕ × Bytes

pub record Server {ℓ κ} (S : Type ℓ) (D : Type κ) : Type (ℓ ⊔ κ) where
  pub registry : Registry
  pub generator : Generator
  pub db_tasks : TaskQueue Task
  pub redis_tasks : TaskQueue Task
  pub chat_log : ChatLog Database.Entry
  pub store : S
  pub database : D
  -- The calls of `sendPacket`, in order.
  pub sent : List Sent

-- What is not under the repository: the hashes, Redis and MySQL.
pub record World {ℓ κ} (S : Type ℓ) (D : Type κ) : Type (ℓ ⊔ κ) where
  pub hash : Bytes → ℕ
  pub md5 : Bytes → Bytes
  pub redis : Redis S
  pub client : Client D

module _ {ℓ κ} {S : Type ℓ} {D : Type κ} where
  unfoldable pub send : ClientContext → ℕ → Bytes → Server S D → Server S D
  send ctx msg_type data_ sv = record sv { sent = sv.sent ++ (ctx.serial, msg_type, data_) ∷ [] }

  unfoldable pub send_all : List ClientContext → ℕ → Bytes → Server S D → Server S D
  unfolding send
  send_all [] msg_type data_ sv = sv
  send_all (ctx ∷ ctxs) msg_type data_ sv =
      send_all ctxs msg_type data_ (send ctx msg_type data_ sv)

  unfoldable pub send_each : ClientContext → List Bytes → Server S D → Server S D
  unfolding send
  send_each ctx [] sv = sv
  send_each ctx (msg ∷ msgs) sv = send_each ctx msgs (send ctx 1 msg sv)

  unfoldable pub enqueue_db_task : Task → Server S D → Bool × Server S D
  enqueue_db_task task sv =
      let (queued, q) = enqueue_task task sv.db_tasks in (queued, record sv { db_tasks = q })

  unfoldable pub enqueue_redis_task : Task → Server S D → Bool × Server S D
  enqueue_redis_task task sv =
      let (queued, q) = enqueue_task task sv.redis_tasks in (queued, record sv { redis_tasks = q })

  unfoldable pub log_chat : Database.Entry → Server S D → Server S D
  log_chat e sv = record sv { chat_log = enqueue_chat_log e sv.chat_log }

  -- `setOnlineUser(accountId, ctx); ctx->accountID = accountId`.
  unfoldable pub bind_account : (Bytes → ℕ) → Bytes → ClientContext → Server S D → Server S D
  bind_account hash account_id ctx sv = record sv {
    registry =
        assign_account ctx.serial account_id (set_online_user hash account_id ctx sv.registry);
  }
