-- ===== src/Dispatch/Private.antt =====
-- Where a message to one account goes.
use linux.Base.{
  ℕ, ◌+◌, ◌<◌, ◌≡◌, refl, ap, ◌∙◌, Bool, true, false, ◌&&◌, Option, none, some, List, [], ◌∷◌, ◌++◌,
  append_assoc, Bytes, eqb, if◌then◌else◌, is_empty,
}
use linux.Decimal.{to_string}
use linux.Registry.{ClientContext}
use linux.Registry.Sessions.{is_current_session_valid_refl}
use linux.Pending.{retry_delay_ms, store_pending_message}
use linux.Pending.Commands.{Redis, Laws}
use linux.Pending.Store.{entry, store_pending_message-entry}
use linux.Dispatch.State.{Server, World, Sent, Task, store_and_send, send}
use linux.Dispatch.Run.{run_task, run_store_and_send, send_if_valid, send_to_target}
use linux.Dispatch.{ack_body}

-- The packet for the target, if there is a connection.
abbrev pub to_target : Option ClientContext → Bytes → List Sent
to_target none enriched = []
to_target (some c) enriched = (c.serial, 1, enriched) ∷ []

abbrev pub delivery : ClientContext → Bytes → Option ClientContext → ℕ → Bytes → Task
delivery ctx target target_ctx id enriched =
    store_and_send ctx ctx.fd target target_ctx id enriched (ack_body id)

module _ {ℓ κ} {S : Type ℓ} {D : Type κ} where
  acked :
      (world : World S D) (ctx : ClientContext) (ack enriched : Bytes)
      (target_ctx : Option ClientContext)
      → (sv : Server S D)
      → let out =
          send_to_target world target_ctx enriched (send_if_valid world ctx ctx.fd 13 ack sv) in
        (out.sent ≡ sv.sent ++ ((ctx.serial, 13, ack) ∷ to_target target_ctx enriched))
        × (out.store ≡ sv.store)
  unfolding send_to_target send_if_valid send
  acked world ctx ack enriched none sv = simp (is_current_session_valid_refl) (refl, refl)
  acked world ctx ack enriched (some c) sv =
      simp (is_current_session_valid_refl)
        (append_assoc sv.sent ((ctx.serial, 13, ack) ∷ []) ((c.serial, 1, enriched) ∷ []), refl)

  -- With any Redis, the packets go out when it says that the message is stored, and only then.
  delivered :
      (world : World S D) (ctx : ClientContext) (target enriched : Bytes)
      → (target_ctx : Option ClientContext) (id now : ℕ) (clocks : Bytes → ℕ) (sv : Server S D)
      → let out = run_task world now clocks (delivery ctx target target_ctx id enriched) sv in
        let (stored, s) = store_pending_message world.redis target id enriched now sv.store in
        (out.sent ≡ (
          if stored
          then sv.sent ++ ((ctx.serial, 13, ack_body id) ∷ to_target target_ctx enriched)
          else sv.sent))
        × (out.store ≡ s)
  unfolding run_task run_store_and_send
  delivered world ctx target enriched target_ctx id now clocks sv =
      answered (store_pending_message world.redis target id enriched now sv.store)
    where
      answered :
          (r : Bool × S)
          → let sv' = record sv { store = r.1 } in
            let out =
              if r.0
              then send_to_target world target_ctx enriched
                  (send_if_valid world ctx ctx.fd 13 (ack_body id) sv')
              else sv' in
            (out.sent ≡ (
              if r.0
              then sv.sent ++ ((ctx.serial, 13, ack_body id) ∷ to_target target_ctx enriched)
              else sv.sent))
            × (out.store ≡ r.1)
      answered (true, s) =
          acked world ctx (ack_body id) enriched target_ctx (record sv { store = s })
      answered (false, s) = (refl, refl)

  -- The task of a private message, with an id above 0 and a target and a text that are not empty, when Redis obeys
  -- its laws: the message is stored under its id, due in three seconds, and every other message that waits is as before; the sender gets the ACK with the id and the
  -- target, if it was online, the message, in this order. With any other Redis, which may be out of reach or
  -- refuse the script, the same packets go out when the storing function answers yes, and when it answers no
  -- none goes out, the ACK neither.
  pub run_task-delivery :
      (world : World S D) (laws : Laws world.redis) (ctx : ClientContext) (target enriched : Bytes)
      → (target_ctx : Option ClientContext) (id now : ℕ) (clocks : Bytes → ℕ) (sv : Server S D)
      → is_empty target ≡ false
      → is_empty enriched ≡ false
      → 0 < id
      → let out = run_task world now clocks (delivery ctx target target_ctx id enriched) sv in
        (out.sent ≡ sv.sent ++ ((ctx.serial, 13, ack_body id) ∷ to_target target_ctx enriched))
        × ((u i : Bytes)
            → entry world.redis laws u i out.store ≡ (
                if eqb target u && eqb (to_string id) i
                then (some enriched, some (now + retry_delay_ms), some (to_string 0))
                else entry world.redis laws u i sv.store))
        × ((r : Redis S)
            → (run_task
                (record world { redis = r })
                now
                clocks
                (delivery ctx target target_ctx id enriched)
                sv).sent
              ≡ (if (store_pending_message r target id enriched now sv.store).0
                  then sv.sent ++ ((ctx.serial, 13, ack_body id) ∷ to_target target_ctx enriched)
                  else sv.sent))
  run_task-delivery world laws ctx target enriched target_ctx id now clocks sv ht he hi =
      let (stored, kept) =
        store_pending_message-entry world.redis laws target enriched id now sv.store ht he hi in
      let (went, same) = delivered world ctx target enriched target_ctx id now clocks sv in
      let sent = sv.sent ++ ((ctx.serial, 13, ack_body id) ∷ to_target target_ctx enriched) in
      (
        went ∙ ap (λ b. if b then sent else sv.sent) stored,
        λ u i. ap (entry world.redis laws u i) same ∙ kept u i,
        λ r.
            (delivered (record world { redis = r }) ctx target enriched target_ctx id now clocks
              sv).0,
      )
