-- ===== src/Dispatch/Broadcast.antt =====
-- Where a broadcast goes.
use linux.Base.{
  ℕ, ◌≡◌, sym, ap, ◌∙◌, some, List, [], ◌∷◌, ◌++◌, append-nil, append_assoc, Bytes, eqb, codes,
}
use linux.Registry.{ClientContext, snapshot_all_clients, get_client_ctx_by_fd}
use linux.Registry.Placed.{IsPlaced}
use linux.Registry.Placed.Once.{of_fd, at_most_one, snapshot_all_clients-once}
use linux.Texts.{build_enriched_chat_body_with_msg_id}
use linux.Snowflake.{Generator, next_id}
use linux.Dispatch.State.{Server, World, Sent, send, send_all, log_chat}
use linux.Dispatch.Chat.{process_packet-deliver}
use linux.Dispatch.{process_packet, chat_fields, deliver, ack_body}

-- The packet, to each of the contexts.
unfoldable pub addressed : ℕ → Bytes → List ClientContext → List Sent
addressed msg_type data_ [] = []
addressed msg_type data_ (ctx ∷ ctxs) =
    (ctx.serial, msg_type, data_) ∷ addressed msg_type data_ ctxs

module _ {ℓ κ} {S : Type ℓ} {D : Type κ} where
  send_all-sent :
      (ctxs : List ClientContext) (msg_type : ℕ) (data_ : Bytes) (sv : Server S D)
      → (send_all ctxs msg_type data_ sv).sent ≡ sv.sent ++ addressed msg_type data_ ctxs
  unfolding send_all addressed send
  send_all-sent [] msg_type data_ sv = sym (append-nil sv.sent)
  send_all-sent (ctx ∷ ctxs) msg_type data_ sv =
      send_all-sent ctxs msg_type data_ (send ctx msg_type data_ sv)
      ∙ append_assoc sv.sent ((ctx.serial, msg_type, data_) ∷ []) (addressed msg_type data_ ctxs)

  -- A chat message to "broadcast", once the clock gives an id, goes to a list of clients and then as an ACK to the
  -- sender. When every client stands in its shard, the list holds, of each descriptor, the client that the
  -- descriptor finds, once, or none: everybody who is connected gets the message once, the sender too.
  pub process_packet-broadcast :
      (world : World S D) (ctx : ClientContext) (body sender content : Bytes)
      → (now : ℕ) (clock : List ℕ) (time : Bytes) (sv : Server S D) (id : ℕ) (g : Generator)
      → IsPlaced sv.registry
      → chat_fields body ≡ (sender, codes "broadcast", content)
      → next_id now clock sv.generator ≡ some (id, g)
      → let enriched =
          build_enriched_chat_body_with_msg_id id sender (codes "broadcast") content time in
        (out : Server S D) × (ctxs : List ClientContext) × (process_packet world ctx 1 body now
            clock time sv
          ≡ some out)
        × (out.sent ≡ sv.sent ++ (addressed 1 enriched ctxs ++ (ctx.serial, 13, ack_body id) ∷ []))
        × ((fd : ℕ) → of_fd fd ctxs ≡ at_most_one (get_client_ctx_by_fd fd sv.registry))
  unfolding deliver send log_chat eqb
  process_packet-broadcast world ctx body sender content now clock time sv id g placed h next =
      let enriched =
        build_enriched_chat_body_with_msg_id id sender (codes "broadcast") content time in
      let all = snapshot_all_clients sv.registry in
      let reached : (send_all all 1 enriched (record sv { generator = g })).sent
          ≡ sv.sent ++ addressed 1 enriched all =
        send_all-sent all 1 enriched (record sv { generator = g }) in
      let out =
        log_chat (sender, codes "broadcast", content)
          (deliver world ctx id (codes "broadcast") enriched (record sv { generator = g })) in
      let ack : List Sent = (ctx.serial, 13, ack_body id) ∷ [] in
      (
        out,
        all,
        process_packet-deliver world ctx body sender (codes "broadcast") content now clock time sv
            id g h next,
        ap (λ t. t ++ ack) reached ∙ append_assoc sv.sent (addressed 1 enriched all) ack,
        λ fd. snapshot_all_clients-once fd sv.registry placed,
      )
