-- ===== src/Tests/Readings.antt =====
-- `handleRead` and a run of `handleWrite`s at concrete inputs.
use linux.Base.{
  ℕ, zero, suc, ◌≡◌, refl, true, false, some, List, [], ◌∷◌, ◌++◌, arith, Bytes, All, length,
}
use linux.SendBuffer
use linux.SendBuffer.{SendBuffer}
use linux.RecvBuffer.{RecvBuffer}
use linux.RecvBuffer.Inv.{IsValid, contents}
use linux.Tasks.{init}
use linux.Framing.{Packet, packet, htonl, htons}
use linux.Framing.Cut.{front, part}
use linux.Framing.Stream.{stream, decoded}
use linux.Reading.{Outcome, hand_on, handle_read}
use linux.Reading.Chunks.{chunks, close_after, joined, handle_read-chunks, handle_read_closed}
use linux.Connection.{Connection, Answer, accepts, write_flush_budget_bytes}
use linux.Connection.Flow.{flow, IsSound}
use linux.Connection.Drain.{Takes, IsWilling, handle_writes, handle_writes-sent}

abbrev plain : ℕ → Bytes → Bytes
plain t b = b

abbrev one_packet : List Packet
one_packet = (3, b'a' ∷ []) ∷ []

-- A ring that reads from its sixth byte.
abbrev idle_ring : RecvBuffer
idle_ring = record { buf = 0 ∷ 0 ∷ 0 ∷ 0 ∷ 0 ∷ 0 ∷ 0 ∷ 0 ∷ []; read = 5; size = 0 }

idle_ring-IsValid : IsValid idle_ring
idle_ring-IsValid = record {
  exponent = 3;
  exponent_le = omega arith;
  capacity = refl;
  read_lt = omega arith;
  size_le = omega arith;
}

-- The packet in three pieces, and the first byte of another.
abbrev pieces : List Bytes
pieces = (0 ∷ 0 ∷ []) ∷ (0 ∷ 7 ∷ 0 ∷ 3 ∷ []) ∷ (b'a' ∷ 0 ∷ []) ∷ []

pieces-stream : contents idle_ring ++ joined pieces ≡ stream one_packet ++ 0 ∷ []
unfolding stream packet htonl htons
pieces-stream = refl

tail-part : front (0 ∷ []) ≡ part
unfolding front
tail-part = refl

abbrev before : Outcome
before = record { sent = []; pool = init 0; disconnects = false }

handle_read-chunks_example :
    (out : RecvBuffer) × (handle_read plain 2 (chunks pieces) idle_ring before
      ≡ some (out, hand_on (decoded plain one_packet) before))
    × (contents out ≡ 0 ∷ [])
    × IsValid out
handle_read-chunks_example =
    handle_read-chunks plain pieces one_packet (0 ∷ []) 2 idle_ring before idle_ring-IsValid
      (omega arith) ((omega arith, omega arith), tt) pieces-stream tail-part (omega arith)

handle_read_closed_example :
    (out : RecvBuffer) × (handle_read plain 2 (close_after pieces) idle_ring before
      ≡ some (out, record before { disconnects = true }))
handle_read_closed_example = handle_read_closed plain 2 pieces idle_ring before

-- A kernel that takes one byte each time it is asked.
slowly : ℕ → List Answer
slowly zero = []
slowly (suc n) = accepts 1 ∷ slowly n

slowly-Takes : (n : ℕ) → All Takes (slowly n)
unfolding slowly Takes
slowly-Takes zero = tt
slowly-Takes (suc n) = (tt, slowly-Takes n)

length-slowly : (n : ℕ) → length (slowly n) ≡ n
unfolding slowly
length-slowly zero = refl
length-slowly (suc n) = omega (arith, length-slowly n)

slowly-IsWilling : IsWilling (slowly write_flush_budget_bytes)
unfolding IsWilling
slowly-IsWilling =
    (slowly-Takes write_flush_budget_bytes, omega (arith, length-slowly write_flush_budget_bytes))

abbrev queue_of : Bytes → SendBuffer
queue_of bs = record { capacity = 4096; bytes = bs; offset = 0 }

-- One byte is being sent, and two wait.
abbrev loaded : Connection
loaded = record {
  pending = queue_of (2 ∷ 3 ∷ []);
  active = queue_of (1 ∷ []);
  write_armed = true;
  pending_bytes = 3;
  has_reactor = true;
  epollout = true;
  open_ = true;
  wire = [];
}

loaded-IsSound : IsSound loaded
unfolding SendBuffer.remaining
loaded-IsSound = record {
  pending_valid = record {
    offset_le = omega arith;
    fits = omega arith;
    positive = omega arith;
    small = omega arith;
  };
  active_valid = record {
    offset_le = omega arith;
    fits = omega arith;
    positive = omega arith;
    small = omega arith;
  };
  counted = refl;
  limited = omega arith;
  armed = λ p. refl;
}

handle_writes-sent_example :
    ((handle_writes (slowly write_flush_budget_bytes ∷ []) loaded).wire ≡ flow loaded)
    × ((handle_writes (slowly write_flush_budget_bytes ∷ []) loaded).pending_bytes ≡ 0)
handle_writes-sent_example =
    handle_writes-sent (slowly write_flush_budget_bytes ∷ []) loaded loaded-IsSound
      (slowly-IsWilling, tt) (omega arith)
