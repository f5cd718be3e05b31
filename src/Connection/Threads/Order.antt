-- ===== src/Connection/Threads/Order.antt =====
-- However the threads interleave, no byte is lost, repeated or reordered.
use linux.Base.{
  ℕ, ◌≤◌, ◌<◌, ◌≡◌, sym, ap, ◌∙◌, true, [], ◌++◌, append-nil, arith, Bytes, drop, drop_all,
}
use linux.SendBuffer
use linux.SendBuffer.{SendBuffer}
use linux.Connection.{Connection, max_pending_send_buffer}
use linux.Connection.Flow.{no_data}
use linux.Connection.Threads.{Shared, new_shared, Steps, none_yet, then_one}
use linux.Connection.Threads.Safe.{IsSafe, Step-IsSafe, in_flight, held}

pub Steps-IsSafe : {first s : Shared} → IsSafe first → Steps first s → IsSafe s
Steps-IsSafe h none_yet = h
Steps-IsSafe h (then_one ss one) = Step-IsSafe one (Steps-IsSafe h ss)

-- For any number of threads that call `sendPacket` while the reactor runs `handleWrite`, step by step in any
-- order from a new connection with empty queues: the bytes on the wire, then those of the active buffer that
-- the kernel has not taken, then those that wait are the accepted packets in the order of the mutex;
-- `pendingBytes` never passes its limit; while it is not 0, `writeArmed` is set; and whenever it is 0, the wire
-- carries exactly the accepted packets.
pub Steps-wire :
    (c : Connection) (s : Shared)
    → IsSafe (new_shared c)
    → Steps (new_shared c) s
    → (s.connection.wire
          ++ (drop (in_flight s.writer) (SendBuffer.current_data s.connection.active)
              ++ SendBuffer.current_data s.connection.pending)
        ≡ s.queued)
      × (s.connection.pending_bytes ≤ max_pending_send_buffer)
      × (0 < s.connection.pending_bytes → s.connection.write_armed ≡ true)
      × (s.connection.pending_bytes ≡ 0 → s.connection.wire ≡ s.queued)
Steps-wire c s new ss = let h = Steps-IsSafe new ss in (h.kept, h.limited, h.armed, λ e. empty h e)
  where
    nothing : (n : ℕ) (w : Bytes) → w ++ (drop n [] ++ []) ≡ w
    nothing n w = ap (λ d. w ++ (d ++ [])) (drop_all n [] (omega arith)) ∙ append-nil w

    empty : IsSafe s → s.connection.pending_bytes ≡ 0 → s.connection.wire ≡ s.queued
    empty h e =
        let gone : held s.connection (in_flight s.writer) ≡ s.connection.wire =
          rw
            (
              no_data s.connection.active (omega (arith, h.counted)),
              no_data s.connection.pending (omega (arith, h.counted)),
            )
            (nothing (in_flight s.writer) s.connection.wire) in
        sym gone ∙ h.kept
