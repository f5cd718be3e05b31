-- ===== src/Connection/Send.antt =====
-- `sendPacket`: the packet goes to the end of the queue, or the connection goes.
use linux.Base.{
  ℕ, ◌+◌, ◌%◌, ◌^◌, ◌≤◌, ◌<◌, ◌≡◌, refl, sym, ap, ◌∙◌, ◌⊎◌, inl, inr, true, false, ◌++◌,
  append_assoc, arith, Bytes, u64_mod, ltb, Bool-cases, length, length-append,
}
use linux.SendBuffer
use linux.SendBuffer.{SendBuffer, current_data-append, remaining-current_data}
use linux.Framing.{packet, htonl, htons}
use linux.Connection.{Connection, send_packet, arm, disconnect, max_pending_send_buffer}
use linux.Connection.Flow.{flow, IsSound, asked}

-- The three appends queue the packet whole.
pub queued :
    (msg_type total : ℕ) (body : Bytes) (b : SendBuffer)
    → SendBuffer.IsValid b
    → SendBuffer.remaining b + length body + 6 ≤ 2 ^ 63
    → let b' =
        SendBuffer.append body
          (SendBuffer.append (htons msg_type) (SendBuffer.append (htonl total) b)) in
      SendBuffer.IsValid b'
      × (SendBuffer.current_data b'
          ≡ SendBuffer.current_data b ++ (htonl total ++ (htons msg_type ++ body)))
      × (SendBuffer.remaining b' ≡ SendBuffer.remaining b + (6 + length body))
unfolding htonl htons
queued msg_type total body b v h =
    let (v₁, d₁) = current_data-append b (htonl total) v (omega arith) in
    let b₁ = SendBuffer.append (htonl total) b in
    let n₁ : SendBuffer.remaining b₁ ≡ SendBuffer.remaining b + 4 = grown b b₁ (htonl total) d₁ in
    let (v₂, d₂) = current_data-append b₁ (htons msg_type) v₁ (omega (arith, n₁)) in
    let b₂ = SendBuffer.append (htons msg_type) b₁ in
    let n₂ : SendBuffer.remaining b₂ ≡ SendBuffer.remaining b₁ + 2 =
      grown b₁ b₂ (htons msg_type) d₂ in
    let (v₃, d₃) = current_data-append b₂ body v₂ (omega (arith, n₁, n₂)) in
    let b₃ = SendBuffer.append body b₂ in
    let n₃ : SendBuffer.remaining b₃ ≡ SendBuffer.remaining b₂ + length body =
      grown b₂ b₃ body d₃ in
    (
      v₃,
      d₃
          ∙ ap (λ d. d ++ body) (d₂ ∙ ap (λ d. d ++ htons msg_type) d₁)
          ∙ append_assoc (SendBuffer.current_data b ++ htonl total) (htons msg_type) body
          ∙ append_assoc (SendBuffer.current_data b) (htonl total) (htons msg_type ++ body),
      omega (arith, n₁, n₂, n₃),
    )
  where
    grown :
        (a a' : SendBuffer) (src : Bytes)
        → SendBuffer.current_data a' ≡ SendBuffer.current_data a ++ src
        → SendBuffer.remaining a' ≡ SendBuffer.remaining a + length src
    grown a a' src e =
        sym (remaining-current_data a')
        ∙ ap length e
        ∙ length-append (SendBuffer.current_data a) src
        ∙ ap (λ k. k + length src) (remaining-current_data a)

-- What joins the end of the last part joins the end of the whole.
pub behind : (w a p q : Bytes) → w ++ (a ++ (p ++ q)) ≡ (w ++ (a ++ p)) ++ q
behind w a p q = ap (λ d. w ++ d) (sym (append_assoc a p q)) ∙ sym (append_assoc w (a ++ p) q)

arm-flow :
    (c : Connection)
    → IsSound (record c { write_armed = true })
    → IsSound (arm c) × (flow (arm c) ≡ flow c)
unfolding arm
arm-flow c s = elim (Bool-cases c.write_armed) [
  | inl e ↦ rw e (
    record {
      pending_valid = s.pending_valid;
      active_valid = s.active_valid;
      counted = s.counted;
      limited = s.limited;
      armed = λ p. refl;
    },
    refl,
  )
  | inr e ↦ rw e (asked c.has_reactor true (record c { write_armed = true }) s)
]

-- For a body of fewer than `2 ^ 32 - 6` bytes on a sound connection, `sendPacket` keeps the connection sound;
-- when the queue has room, the packet joins the end of the bytes to send, and otherwise the connection is
-- closed with its bytes as they were.
pub send_packet-flow :
    (msg_type : ℕ) (body : Bytes) (c : Connection)
    → IsSound c
    → length body + 6 < 2 ^ 32
    → IsSound (send_packet msg_type body c)
      × (((c.pending_bytes + length body + 6 ≤ max_pending_send_buffer)
            × (flow (send_packet msg_type body c) ≡ flow c ++ packet msg_type body))
          ⊎ ((max_pending_send_buffer < c.pending_bytes + length body + 6)
              × ((send_packet msg_type body c).open_ ≡ false)
              × (flow (send_packet msg_type body c) ≡ flow c)))
unfolding send_packet packet disconnect htonl htons
send_packet-flow msg_type body c s h =
    let total : (6 + length body % 2 ^ 32) % 2 ^ 32 ≡ 6 + length body = omega arith in
    let word : (c.pending_bytes + (6 + length body)) % u64_mod
        ≡ c.pending_bytes + (6 + length body) =
      omega (arith, s.limited) in
    elim (Bool-cases (ltb max_pending_send_buffer (c.pending_bytes + (6 + length body)))) [
      | inl e ↦
          rw (total, word, e)
            (
              record {
                pending_valid = s.pending_valid;
                active_valid = s.active_valid;
                counted = s.counted;
                limited = s.limited;
                armed = s.armed;
              },
              inr (ground arith, refl, refl),
            )
      | inr e ↦
          let (valid, same, size) =
            queued (msg_type % 2 ^ 16) (6 + length body) body c.pending s.pending_valid
              (omega (arith, s.counted, s.limited)) in
          let ready : Connection = record c {
            pending = SendBuffer.append body (
                SendBuffer.append (htons (msg_type % 2 ^ 16))
                  (SendBuffer.append (htonl (6 + length body)) c.pending));
            pending_bytes = c.pending_bytes + (6 + length body);
          } in
          let (sound, kept) = arm-flow ready (record {
            pending_valid = valid;
            active_valid = s.active_valid;
            counted = omega (arith, size, s.counted);
            limited = ground arith;
            armed = λ p. refl;
          }) in
          rw (total, word, e)
            (
              sound,
              inl (
                ground arith,
                kept
                    ∙ ap (λ d. c.wire ++ (SendBuffer.current_data c.active ++ d)) same
                    ∙ behind c.wire (SendBuffer.current_data c.active)
                        (SendBuffer.current_data c.pending) (packet_of body),
              ),
            )
    ]
  where
    packet_of : Bytes → Bytes
    packet_of b = htonl (6 + length b) ++ (htons (msg_type % 2 ^ 16) ++ b)
