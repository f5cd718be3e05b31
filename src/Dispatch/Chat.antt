-- ===== src/Dispatch/Chat.antt =====
-- A chat message from its packet to the log.
use linux.Base.{ℕ, ◌≡◌, refl, ap, ◌∙◌, some, List, Bytes}
use linux.Registry.{ClientContext}
use linux.Texts.{build_enriched_chat_body_with_msg_id}
use linux.Snowflake.{Generator, next_id}
use linux.Dispatch.State.{Server, World, log_chat}
use linux.Dispatch.{process_packet, chat, chat_fields, deliver}

module _ {ℓ κ} {S : Type ℓ} {D : Type κ} where
  pub process_packet-deliver :
      (world : World S D) (ctx : ClientContext) (body sender target content : Bytes)
      → (now : ℕ) (clock : List ℕ) (time : Bytes) (sv : Server S D) (id : ℕ) (g : Generator)
      → chat_fields body ≡ (sender, target, content)
      → next_id now clock sv.generator ≡ some (id, g)
      → process_packet world ctx 1 body now clock time sv
        ≡ some (
            log_chat
              (sender, target, content)
              (deliver world ctx id target
                (build_enriched_chat_body_with_msg_id id sender target content time)
                (record sv { generator = g })))
  unfolding process_packet chat
  process_packet-deliver world ctx body sender target content now clock time sv id g h next =
      ap (λ fields. chat world ctx fields now clock time sv) h ∙ rw (chat, next) refl
