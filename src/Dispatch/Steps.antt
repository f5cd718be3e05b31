-- ===== src/Dispatch/Steps.antt =====
-- The server as a transition system: connections, packets, workers, disconnections, contexts that are destroyed,
-- rounds of the retry loop and of the chat log in any order. A worker takes a task in one step, and runs and
-- finishes it in another; the tasks that were taken are finished in any order.
pub mod Delivered
pub mod Kept
pub mod Sound
use linux.Base.{ℕ, ◌≡◌, ◌≢◌, Bool, true, false, Option, none, some, List, [], ◌∷◌, Bytes}
use linux.Registry.{
  ClientContext, add_client_ctx, handle_disconnect, get_online_ctx, get_client_ctx_by_fd,
  destroy_context,
}
use linux.ChatLog.{swap_queues, flush_batch}
use linux.Pending.{retry_round}
use linux.Tasks.{init, start, take_next, taken_out, finish_task}
use linux.Dispatch.State.{Server, World, Task, send_each}
use linux.Dispatch.Run.{run_task}
use linux.Dispatch.{process_packet}

abbrev pub is_some : Option ClientContext → Bool
is_some none = false
is_some (some ctx) = true

module _ {ℓ κ} {S : Type ℓ} {D : Type κ} (world : World S D) where
  -- The end of a closure that `enqueueDbTask` queued.
  pub finish_db : ℕ → (Bytes → ℕ) → ℕ → Task → Server S D → Server S D
  finish_db now clocks n task sv =
      let sv' = run_task world now clocks task sv in
      record sv' { db_tasks = finish_task n sv'.db_tasks }

  pub finish_redis : ℕ → (Bytes → ℕ) → ℕ → Task → Server S D → Server S D
  finish_redis now clocks n task sv =
      let sv' = run_task world now clocks task sv in
      record sv' { redis_tasks = finish_task n sv'.redis_tasks }

  -- The packets of a round of the retry loop, to the accounts that are online.
  pub send_batches : List (Bytes × List Bytes) → Server S D → Server S D
  send_batches [] sv = sv
  send_batches ((user, msgs) ∷ batches) sv =
      send_batches batches (elim (get_online_ctx world.hash user sv.registry) [
        | none ↦ sv
        | some ctx ↦ send_each ctx msgs sv
      ])

  -- A round of `retryLoop`.
  pub retry : ℕ → (Bytes → ℕ) → Server S D → Server S D
  unfolding send_batches
  retry begun clocks sv =
      let online = λ (user : Bytes). is_some (get_online_ctx world.hash user sv.registry) in
      let (batches, s) = retry_round world.redis online begun clocks sv.store in
      send_batches batches (record sv { store = s })

  pub data Step : Server S D → Server S D → Type (ℓ ⊔ κ) where
    connects :
        {sv : Server S D} (ctx : ClientContext)
        → Step sv (record sv { registry = add_client_ctx ctx sv.registry })
    sends :
        {sv out : Server S D} (ctx : ClientContext) (msg_type : ℕ) (body : Bytes) (now : ℕ)
        (clock : List ℕ) (time : Bytes)
        → process_packet world ctx msg_type body now clock time sv ≡ some out
        → Step sv out
    takes_db : {sv : Server S D} → Step sv (record sv { db_tasks = take_next sv.db_tasks })
    takes_redis : {sv : Server S D} → Step sv (record sv { redis_tasks = take_next sv.redis_tasks })
    runs_db :
        {sv : Server S D} (now : ℕ) (clocks : Bytes → ℕ) (n : ℕ) (task : Task) (others : List Task)
        → taken_out n sv.db_tasks.pool.running ≡ some (task, others)
        → Step sv (finish_db now clocks n task sv)
    runs_redis :
        {sv : Server S D} (now : ℕ) (clocks : Bytes → ℕ) (n : ℕ) (task : Task) (others : List Task)
        → taken_out n sv.redis_tasks.pool.running ≡ some (task, others)
        → Step sv (finish_redis now clocks n task sv)
    disconnects :
        {sv : Server S D} (fd : ℕ)
        → Step sv (record sv { registry = handle_disconnect world.hash fd sv.registry })
    destroys :
        {sv : Server S D} (serial : ℕ)
        → ((fd : ℕ) (ctx : ClientContext)
            → get_client_ctx_by_fd fd sv.registry ≡ some ctx
            → ctx.serial ≢ serial)
        → Step sv (record sv { registry = destroy_context serial sv.registry })
    retries : {sv : Server S D} (begun : ℕ) (clocks : Bytes → ℕ) → Step sv (retry begun clocks sv)
    swaps_log : {sv : Server S D} → Step sv (record sv { chat_log = swap_queues sv.chat_log })
    flushes_log :
        {sv : Server S D} (inserted : Bool)
        → Step sv (record sv { chat_log = flush_batch inserted sv.chat_log })

  -- The states that steps lead to from the first.
  pub data Reachable (first : Server S D) : Server S D → Type (ℓ ⊔ κ) where
    begins : Reachable first first
    then_step : {sv sv' : Server S D} → Reachable first sv → Step sv sv' → Reachable first sv'
