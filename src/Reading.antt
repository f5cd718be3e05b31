-- ===== src/Reading.antt =====
-- `handleRead`: what it receives goes to the ring buffer, the complete packets go to the thread pool, and
-- heartbeats are answered at once. What `recv` answers is a list.
pub mod Chunks
use linux.Base.{
  ℕ, Bool, true, false, Option, none, some, List, [], ◌∷◌, ◌++◌, Bytes, ◌==◌, if◌then◌else◌, codes,
}
use linux.RecvBuffer
use linux.RecvBuffer.{RecvBuffer}
use linux.Framing.{Packet, unpack}
use linux.Tasks.{ThreadPool, try_enqueue}

abbrev pub msg_type_ack : ℕ
msg_type_ack = 13

pub data Recv : Type 0 where
  received : Bytes → Recv
  closed again failed : Recv

-- The loop of `recv`; a list that is used up answers `EAGAIN`. The result says whether to disconnect.
unfoldable pub receive : List Recv → RecvBuffer → RecvBuffer × Bool
receive [] r = (r, false)
receive (received bytes ∷ rs) r = receive rs (RecvBuffer.append bytes r)
receive (closed ∷ rs) r = (r, true)
receive (again ∷ rs) r = (r, false)
receive (failed ∷ rs) r = (r, true)

-- What a connection asks of the server: packets that `sendPacket` is called with, work for the pool, and
-- whether it is to be disconnected.
pub record Outcome : Type 0 where
  pub sent : List Packet
  pub pool : ThreadPool Packet
  pub disconnects : Bool

abbrev pub server_busy : Bytes
server_busy = codes "{\"result\":\"fail\",\"message\":\"server_busy\"}"

-- The loop over the packets that were taken.
unfoldable pub hand_on : List Packet → Outcome → Outcome
hand_on [] o = o
hand_on ((msg_type, body) ∷ ps) o =
    let (queued, pool) = try_enqueue (msg_type, body) o.pool in
    hand_on ps (
      if msg_type == 2
      then record o { sent = o.sent ++ (2, []) ∷ [] }
      else if queued
      then record o { pool = pool }
      else record o { sent = o.sent ++ (msg_type_ack, server_busy) ∷ [] })

unpacked : Option (List Packet × Bool × RecvBuffer) → Outcome → Option (RecvBuffer × Outcome)
unpacked none o = none
unpacked (some (ps, true, r)) o = some (r, record o { disconnects = true })
unpacked (some (ps, false, r)) o = some (r, hand_on ps o)

-- `decode` is `decodeProtoToJson`; `none` is out of fuel, in the unpacking loop.
pub handle_read :
    (ℕ → Bytes → Bytes) → ℕ → List Recv → RecvBuffer → Outcome → Option (RecvBuffer × Outcome)
unfolding unpacked
handle_read decode fuel rs r o =
    let (r', shut) = receive rs r in
    if shut then some (r', record o { disconnects = true }) else unpacked (unpack decode fuel r') o
