-- ===== src/Tests/Threads.antt =====
-- Threads that send while the reactor writes.
use linux.Base.{◌≤◌, ◌<◌, ◌≡◌, refl, Bool, true, false, [], ◌∷◌, ◌++◌, arith, drop}
use linux.SendBuffer
use linux.SendBuffer.{SendBuffer}
use linux.Framing.{packet}
use linux.Connection.{Connection, accepts, would_block, max_pending_send_buffer}
use linux.Connection.Threads.{
  looping, Shared, new_shared, enqueue, enable, advance, sends, starts, advances, Steps, none_yet,
  then_one,
}
use linux.Connection.Threads.Safe.{IsSafe, in_flight}
use linux.Connection.Threads.Order.{Steps-wire}
use linux.Connection.Threads.Lost.{finished, overtaken, lost_wakeup, early_packet}

abbrev empty_queue : SendBuffer
empty_queue = record { capacity = 4096; bytes = []; offset = 0 }

-- Nothing is queued; with a reactor, the connection is still registered for `EPOLLOUT`.
abbrev quiet : Bool → Connection
quiet has_reactor = record {
  pending = empty_queue;
  active = empty_queue;
  write_armed = false;
  pending_bytes = 0;
  has_reactor = has_reactor;
  epollout = has_reactor;
  open_ = true;
  wire = [];
}

quiet-IsSafe : (r : Bool) → IsSafe (new_shared (quiet r))
unfolding SendBuffer.remaining SendBuffer.current_data
quiet-IsSafe r = record {
  pending_valid = record {
    offset_le = omega arith;
    fits = omega arith;
    positive = omega arith;
    small = omega arith;
  };
  active_valid = record {
    offset_le = omega arith;
    fits = omega arith;
    positive = omega arith;
    small = omega arith;
  };
  counted = refl;
  limited = omega arith;
  armed = λ p. absurd (omega arith);
  fits = tt;
  kept = refl;
}

finished-IsSafe : IsSafe (finished (quiet true) [])
unfolding SendBuffer.remaining SendBuffer.current_data
finished-IsSafe =
    let h = quiet-IsSafe true in
    record {
      pending_valid = h.pending_valid;
      active_valid = h.active_valid;
      counted = h.counted;
      limited = h.limited;
      armed = h.armed;
      fits = tt;
      kept = h.kept;
    }

-- `handleWrite` begins, a packet comes, and the kernel takes five of its bytes.
abbrev racing : Shared
racing = advance (accepts 5) (
    advance would_block
      (enqueue 3 (7 ∷ []) (record (new_shared (quiet true)) { writer = looping 0 })))

racing-Steps : Steps (new_shared (quiet true)) racing
racing-Steps =
    then_one
      (then_one (then_one (then_one none_yet (starts refl refl)) (sends 3 (7 ∷ []) (omega arith)))
        (advances would_block))
      (advances (accepts 5))

Steps-wire_example :
    (racing.connection.wire
        ++ (drop (in_flight racing.writer) (SendBuffer.current_data racing.connection.active)
            ++ SendBuffer.current_data racing.connection.pending)
      ≡ racing.queued)
    × (racing.connection.pending_bytes ≤ max_pending_send_buffer)
    × (0 < racing.connection.pending_bytes → racing.connection.write_armed ≡ true)
    × (racing.connection.pending_bytes ≡ 0 → racing.connection.wire ≡ racing.queued)
Steps-wire_example = Steps-wire (quiet true) racing (quiet-IsSafe true) racing-Steps

abbrev lost : Shared
lost = overtaken 3 (7 ∷ []) (finished (quiet true) [])

lost_wakeup_example :
    Steps (finished (quiet true) []) lost
    × (lost.queued ≡ [] ++ packet 3 (7 ∷ []))
    × ((enqueue 4 [] lost).connection.wire ≡ [])
unfolding SendBuffer.remaining
lost_wakeup_example =
    lost_wakeup 3 (7 ∷ []) (quiet true) [] finished-IsSafe refl refl refl (omega arith)
      (enqueue 4 [] lost) (then_one none_yet (sends 4 [] (omega arith)))

abbrev early : Shared
early = enable (enqueue 3 (7 ∷ []) (new_shared (quiet false)))

early_packet_example :
    Steps (new_shared (quiet false)) early
    × (early.queued ≡ packet 3 (7 ∷ []))
    × ((enqueue 4 [] early).connection.wire ≡ [])
early_packet_example =
    early_packet 3 (7 ∷ []) (quiet false) refl refl refl refl (omega arith) (enqueue 4 [] early)
      (then_one none_yet (sends 4 [] (omega arith)))
