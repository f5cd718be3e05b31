-- ===== src/Framing/Stream.antt =====
-- A byte stream of packets, however `recv` cuts it: what the unpacking loop returns and leaves.
use linux.Base.{
  ℕ, zero, suc, ◌+◌, ◌-◌, ◌/◌, ◌%◌, ◌^◌, ◌≤◌, ◌<◌, ◌≡◌, refl, ap, ◌∙◌, subst, false, ◌||◌, some,
  List, [], ◌∷◌, ◌++◌, append_assoc, arith, Bytes, All, ltb, length, length-append, take_prefix,
  drop_prefix,
}
use linux.RecvBuffer.{RecvBuffer}
use linux.RecvBuffer.Inv.{IsValid, contents}
use linux.Framing.{
  Packet, Round, wait, illegal, got, max_packet_size, ntohl, ntohs, htonl, htons, packet,
  unpack_round, unpack,
}
use linux.Framing.Cut.{part, whole, front, Agrees, unpack_round-Agrees}

-- `ntohl` undoes `htonl` on a `uint32_t`, and `ntohs` undoes `htons` on a `uint16_t`.
ntohl-htonl : (n : ℕ) → n < 2 ^ 32 → ntohl (htonl n) ≡ n
unfolding ntohl htonl
ntohl-htonl n h = omega arith

ntohs-htons : (n : ℕ) → n < 2 ^ 16 → ntohs (htons n) ≡ n
unfolding ntohs htons
ntohs-htons n h = omega arith

-- A packet that the protocol allows: the type fits, and so does the length.
abbrev pub IsPacket : Packet → Type 0
IsPacket (t, body) = (t < 2 ^ 16) × (6 + length body ≤ max_packet_size)

-- Six bytes of header before a body.
front_header :
    (a b c d e f : ℕ) (body rest : Bytes)
    → ntohl (a ∷ b ∷ c ∷ d ∷ []) ≡ 6 + length body
    → 6 + length body ≤ max_packet_size
    → front (a ∷ b ∷ c ∷ d ∷ e ∷ f ∷ (body ++ rest)) ≡ whole (ntohs (e ∷ f ∷ [])) body rest
unfolding front
front_header a b c d e f body rest total small =
    let len = length-append body rest in
    let four : ltb (suc (suc (suc (suc (suc (suc (length (body ++ rest)))))))) 4 ≡ false =
      ground arith in
    let legal : (ltb (6 + length body) 6 || ltb max_packet_size (6 + length body)) ≡ false =
      ground arith in
    let all : ltb (suc (suc (suc (suc (suc (suc (length (body ++ rest)))))))) (6 + length body)
        ≡ false =
      ground (arith, len) in
    let body_len : 6 + length body - 6 ≡ length body = omega arith in
    let past : 6 + length body ≡ suc (suc (suc (suc (suc (suc (length body)))))) = omega arith in
    rw (four, total, legal, all, body_len, take_prefix body rest, past, drop_prefix body rest)

-- The front of a stream that begins with a legal packet is that packet, and the rest follows it.
pub front-packet :
    (t : ℕ) (body rest : Bytes)
    → t < 2 ^ 16
    → 6 + length body ≤ max_packet_size
    → front (packet t body ++ rest) ≡ whole t body rest
front-packet t body rest ht hb =
    let len : (6 + length body % 2 ^ 32) % 2 ^ 32 ≡ 6 + length body = omega arith in
    let typ : t % 2 ^ 16 ≡ t = omega arith in
    header (6 + length body) (ntohl-htonl (6 + length body) (omega arith)) len typ
    ∙ ap (λ k. whole k body rest) (ntohs-htons t ht)
  where
    header :
        (n : ℕ)
        → ntohl (htonl n) ≡ 6 + length body
        → (6 + length body % 2 ^ 32) % 2 ^ 32 ≡ n
        → t % 2 ^ 16 ≡ t
        → front (packet t body ++ rest) ≡ whole (ntohs (htons t)) body rest
    header n e len typ =
        unfold packet htonl htons in
        rw (len, typ)
          (front_header (n / 2 ^ 24 % 256) (n / 2 ^ 16 % 256) (n / 2 ^ 8 % 256) (n % 256)
            (t / 2 ^ 8 % 256) (t % 256) body rest (unfold htonl in e) hb)

-- The packets one after the other.
unfoldable pub stream : List Packet → Bytes
stream [] = []
stream ((t, body) ∷ ps) = packet t body ++ stream ps

module _ (decode : ℕ → Bytes → Bytes) where
  -- Each packet as the loop hands it on.
  unfoldable pub decoded : List Packet → List Packet
  decoded [] = []
  decoded ((t, body) ∷ ps) = (t, decode t body) ∷ decoded ps

  -- The loop's result on a ring whose front is known.
  stops_at_part :
      (fuel : ℕ) (r : RecvBuffer)
      → Agrees decode (unpack_round decode r) part
      → unpack decode (suc fuel) r ≡ some ([], false, r)
  unfolding unpack
  stops_at_part fuel r a = by_round (unpack_round decode r) refl a
    where
      by_round :
          (x : Round)
          → unpack_round decode r ≡ x
          → Agrees decode x part
          → unpack decode (suc fuel) r ≡ some ([], false, r)
      by_round wait e a = rw (e, unpack)
      by_round illegal e a = absurd a
      by_round (got t b r') e a = absurd a

  takes_whole :
      (fuel t : ℕ) (body rest : Bytes) (r : RecvBuffer)
      → Agrees decode (unpack_round decode r) (whole t body rest)
      → (r' : RecvBuffer) × (unpack_round decode r ≡ got t (decode t body) r')
        × (contents r' ≡ rest)
        × IsValid r'
  takes_whole fuel t body rest r a = by_round (unpack_round decode r) refl a
    where
      by_round :
          (x : Round)
          → unpack_round decode r ≡ x
          → Agrees decode x (whole t body rest)
          → (r' : RecvBuffer) × (unpack_round decode r ≡ got t (decode t body) r')
            × (contents r' ≡ rest)
            × IsValid r'
      by_round wait e a = absurd a
      by_round illegal e a = absurd a
      by_round (got t' b' r') e (et, eb, ec, v) = (r', rw (e, et, eb), ec, v)

  -- The loop takes every packet of the stream, in order and decoded, does not ask for a disconnect, and leaves
  -- the bytes of the packet that is not complete yet.
  pub unpack-stream :
      (ps : List Packet) (tail : Bytes) (fuel : ℕ) (r : RecvBuffer)
      → IsValid r
      → All IsPacket ps
      → contents r ≡ stream ps ++ tail
      → front tail ≡ part
      → length ps < fuel
      → (out : RecvBuffer) × (unpack decode fuel r ≡ some (decoded ps, false, out))
        × (contents out ≡ tail)
        × IsValid out
  unpack-stream ps tail zero r v legal e incomplete lt = absurd (omega arith)
  unpack-stream [] tail (suc fuel) r v legal e incomplete lt =
      let tail_only : contents r ≡ tail = unfold stream in e in
      (
        r,
        unfold decoded in
            stops_at_part fuel r (
              subst (Agrees decode (unpack_round decode r)) (ap front tail_only ∙ incomplete)
                (unpack_round-Agrees decode r v)),
        tail_only,
        v,
      )
  unpack-stream ((t, body) ∷ ps) tail (suc fuel) r v legal e incomplete lt =
      let first : contents r ≡ packet t body ++ (stream ps ++ tail) =
        unfold stream in e ∙ append_assoc (packet t body) (stream ps) tail in
      let (r', er, ec, v') = takes_whole fuel t body (stream ps ++ tail) r (
        subst (Agrees decode (unpack_round decode r))
          (ap front first ∙ front-packet t body (stream ps ++ tail) legal.0.0 legal.0.1)
          (unpack_round-Agrees decode r v)) in
      let (out, eo, co, vo) =
        unpack-stream ps tail fuel r' v' legal.1 ec incomplete (omega arith) in
      (out, next_round er eo, co, vo)
    where
      next_round :
          {r' out : RecvBuffer}
          → unpack_round decode r ≡ got t (decode t body) r'
          → unpack decode fuel r' ≡ some (decoded ps, false, out)
          → unpack decode (suc fuel) r ≡ some (decoded ((t, body) ∷ ps), false, out)
      next_round er eo = unfold decoded in unfold unpack in rw (er, unpack, eo)
