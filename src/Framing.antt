-- ===== src/Framing.antt =====
-- The packets of the protocol: the unpacking loop of `handleRead` and the packet that `sendPacket` writes.
-- A packet is its total length in four bytes, its type in two, both in network order, and its body.
pub mod Cut
pub mod Stream
use linux.Base.{
  ℕ, zero, suc, ◌+◌, ◌-◌, ◌*◌, ◌/◌, ◌%◌, ◌^◌, Bool, true, false, ◌||◌, Option, none, some, List, [],
  ◌∷◌, ◌++◌, Bytes, ltb, if◌then◌else◌, length, get_or,
}
use linux.RecvBuffer.{RecvBuffer, append, peek, peek_string, consume}

abbrev pub max_packet_size : ℕ
max_packet_size = 1024 * 1024

-- `ntohl` of four bytes read into a `uint32_t`, and `ntohs` of two.
pub ntohl : Bytes → ℕ
ntohl bs = get_or bs 0 0 * 2 ^ 24 + get_or bs 1 0 * 2 ^ 16 + get_or bs 2 0 * 2 ^ 8 + get_or bs 3 0

pub ntohs : Bytes → ℕ
ntohs bs = get_or bs 0 0 * 2 ^ 8 + get_or bs 1 0

-- The bytes of `htonl` and `htons`, for a `uint32_t` and a `uint16_t`.
unfoldable pub htonl : ℕ → Bytes
htonl n = n / 2 ^ 24 % 256 ∷ n / 2 ^ 16 % 256 ∷ n / 2 ^ 8 % 256 ∷ n % 256 ∷ []

unfoldable pub htons : ℕ → Bytes
htons n = n / 2 ^ 8 % 256 ∷ n % 256 ∷ []

-- What `sendPacket` puts into the send buffer for a type and an encoded body.
unfoldable pub packet : ℕ → Bytes → Bytes
packet msg_type body =
    htonl ((6 + length body % 2 ^ 32) % 2 ^ 32) ++ (htons (msg_type % 2 ^ 16) ++ body)

abbrev pub Packet : Type 0
Packet = ℕ × Bytes

-- One round of the unpacking loop. `decode` is what it applies to each body, `decodeProtoToJson`.
pub data Round : Type 0 where
  -- The loop stops: too few bytes for a packet.
  wait : Round
  -- `shouldDisconnect`: the length is not that of a packet.
  illegal : Round
  -- A packet was taken from the buffer.
  got : ℕ → Bytes → RecvBuffer → Round

module _ (decode : ℕ → Bytes → Bytes) where
  take_body : ℕ → RecvBuffer → Option Bytes → Round
  take_body total r none = wait
  take_body total r (some type_bytes) =
      let msg_type = ntohs type_bytes in
      got msg_type (decode msg_type (peek_string 6 (total - 6) r)) (consume total r)

  take_packet : RecvBuffer → Option Bytes → Round
  unfolding take_body
  take_packet r none = wait
  take_packet r (some length_bytes) =
      let total = ntohl length_bytes in
      if ltb total 6 || ltb max_packet_size total
      then illegal
      else if ltb r.size total
      then wait
      else take_body total r (peek 2 4 r)

  pub unpack_round : RecvBuffer → Round
  unfolding take_packet
  unpack_round r = if ltb r.size 4 then wait else take_packet r (peek 4 0 r)

  -- What the loop has done when it ends: the decoded packets in order, whether the peer is to be
  -- disconnected, and the buffer. `none` means that the fuel ran out.
  pub unpack : ℕ → RecvBuffer → Option (List Packet × Bool × RecvBuffer)
  unpack zero r = none
  unpack (suc fuel) r = elim (unpack_round r) [
    | wait ↦ some ([], false, r)
    | illegal ↦ some ([], true, r)
    | got msg_type body r' ↦ elim (unpack fuel r') [
      | none ↦ none
      | some (ps, bad, out) ↦ some ((msg_type, body) ∷ ps, bad, out)
    ]
  ]
