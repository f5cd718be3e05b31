-- ===== src/Dispatch/Steps/Delivered.antt =====
-- A message to one account, and its ACK, from the packet to the end of the task.
use linux.Base.{
  ℕ, ◌+◌, ◌<◌, ◌≡◌, refl, ap, ◌∙◌, false, ◌&&◌, some, List, [], ◌∷◌, ◌++◌, Bytes, eqb,
  if◌then◌else◌, codes, is_empty,
}
use linux.Decimal.{to_string}
use linux.Registry.{ClientContext, get_online_ctx}
use linux.Texts.{build_enriched_chat_body_with_msg_id}
use linux.Snowflake.{Generator, next_id}
use linux.Tasks.{enqueue_task, take_next, taken_out, worker_queue_limit}
use linux.Tasks.Bound.{taken_at_once}
use linux.Pending.{retry_delay_ms}
use linux.Pending.Commands.{Laws}
use linux.Pending.Store.{entry}
use linux.Dispatch.State.{Server, World, log_chat, enqueue_redis_task}
use linux.Dispatch.Chat.{process_packet-deliver}
use linux.Dispatch.Private.{delivery, to_target, run_task-delivery}
use linux.Dispatch.Steps.{finish_redis}
use linux.Dispatch.{process_packet, chat_fields, deliver, ack_body}

module _ {ℓ κ} {S : Type ℓ} {D : Type κ} where
  -- A chat message to one account, neither empty nor "broadcast", on its way: once the clock gives an id above 0,
  -- `processPacket` sends nothing and queues a task, if the queue has room, which the next worker takes when
  -- nothing waits before it. When Redis obeys its laws and that
  -- worker is done, the sender has its ACK, the target, if it was online at the time of the packet, the message,
  -- and the message waits under its id for an ACK, due in three seconds; every other that waits is as before.
  pub process_packet-delivered :
      (world : World S D) (laws : Laws world.redis) (ctx : ClientContext)
      (body sender target content : Bytes)
      → (now : ℕ) (clock : List ℕ) (time : Bytes) (sv : Server S D) (id : ℕ) (g : Generator)
      → (later : ℕ) (clocks : Bytes → ℕ) → chat_fields body ≡ (sender, target, content)
      → eqb target (codes "broadcast") ≡ false
      → next_id now clock sv.generator ≡ some (id, g)
      → is_empty target ≡ false
      → 0 < id
      → sv.redis_tasks.depth < worker_queue_limit
      → sv.redis_tasks.pool.tasks ≡ []
      → let enriched = build_enriched_chat_body_with_msg_id id sender target content time in
        let target_ctx = get_online_ctx world.hash target sv.registry in
        let task = delivery ctx target target_ctx id enriched in
        (queued : Server S D) × (process_packet world ctx 1 body now clock time sv ≡ some queued)
        × (queued.sent ≡ sv.sent)
        × (let taken = record queued { redis_tasks = take_next queued.redis_tasks } in
            let out = finish_redis world later clocks 0 task taken in
            (taken_out 0 taken.redis_tasks.pool.running ≡ some (task, sv.redis_tasks.pool.running))
            × (out.sent
                ≡ sv.sent ++ ((ctx.serial, 13, ack_body id) ∷ to_target target_ctx enriched))
            × ((u i : Bytes)
                → entry world.redis laws u i out.store ≡ (
                    if eqb target u && eqb (to_string id) i
                    then (some enriched, some (later + retry_delay_ms), some (to_string 0))
                    else entry world.redis laws u i sv.store)))
  unfolding deliver log_chat enqueue_redis_task finish_redis build_enriched_chat_body_with_msg_id
  process_packet-delivered world laws ctx body sender target content now clock time sv id g later
        clocks h private next ht hi room idle =
      let enriched = build_enriched_chat_body_with_msg_id id sender target content time in
      let target_ctx = get_online_ctx world.hash target sv.registry in
      let task = delivery ctx target target_ctx id enriched in
      let queued =
        log_chat (sender, target, content)
          (deliver world ctx id target enriched (record sv { generator = g })) in
      let taken = record queued { redis_tasks = take_next queued.redis_tasks } in
      let (went, kept, any) =
        run_task-delivery world laws ctx target enriched target_ctx id later clocks taken ht refl
          hi in
      let same_sent : queued.sent ≡ sv.sent = rw private refl in
      let same_store : queued.store ≡ sv.store = rw private refl in
      let same_tasks : queued.redis_tasks ≡ (enqueue_task task sv.redis_tasks).1 =
        rw private refl in
      (
        queued,
        process_packet-deliver world ctx body sender target content now clock time sv id g h next,
        same_sent,
        (
          ap (λ q. taken_out 0 (take_next q).pool.running) same_tasks
              ∙ taken_at_once task sv.redis_tasks room idle,
          went
              ∙ ap (λ xs. xs ++ ((ctx.serial, 13, ack_body id) ∷ to_target target_ctx enriched))
                  same_sent,
          λ u i.
              kept u i
              ∙ ap
                  (λ x.
                    if eqb target u && eqb (to_string id) i
                    then (some enriched, some (later + retry_delay_ms), some (to_string 0))
                    else entry world.redis laws u i x)
                  same_store,
        ),
      )
