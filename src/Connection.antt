-- ===== src/Connection.antt =====
-- The sending side of a `ClientContext`: `sendPacket` and `handleWrite` of EpollChatServer.cpp. Each function
-- runs from start to end; what the kernel answers to the calls of `send` is a list. `wire` collects the bytes
-- that the kernel took, and `epollout` is what the last `epoll_ctl` asked for.
pub mod Flow
pub mod Send
pub mod Budget
pub mod Drain
pub mod Threads
use linux.Base.{
  ℕ, ◌+◌, ◌-◌, ◌*◌, ◌%◌, ◌^◌, min, max, Bool, true, false, ◌&&◌, List, [], ◌∷◌, ◌++◌, Bytes,
  u64_mod, ltb, leb, ◌==◌, if◌then◌else◌, length, take,
}
use linux.SendBuffer
use linux.SendBuffer.{SendBuffer}
use linux.Framing.{htonl, htons}

abbrev pub max_pending_send_buffer : ℕ
max_pending_send_buffer = 16 * 1024 * 1024

abbrev pub write_flush_budget_bytes : ℕ
write_flush_budget_bytes = 64 * 1024

pub record Connection : Type 0 where
  pub pending : SendBuffer
  pub active : SendBuffer
  pub write_armed : Bool
  pub pending_bytes : ℕ
  pub has_reactor : Bool
  pub epollout : Bool
  pub open_ : Bool
  pub wire : Bytes

-- `handleDisconnect`, as far as this connection goes.
pub disconnect : Connection → Connection
disconnect c = record c { open_ = false; epollout = false }

-- `epoll_ctl(…, EPOLL_CTL_MOD, …)` with or without `EPOLLOUT`; nothing without a reactor.
abbrev ask_epollout : Bool → Connection → Connection
ask_epollout on c = if c.has_reactor then record c { epollout = on } else c

-- `writeArmed.exchange(true)`, and `EPOLLOUT` if it was not set.
arm : Connection → Connection
arm c = if c.write_armed then c else ask_epollout true (record c { write_armed = true })

-- `sendPacket` on a body that `encodeJsonToProto` made. The source leaves out the append of an empty body,
-- which would do nothing.
pub send_packet : ℕ → Bytes → Connection → Connection
unfolding arm disconnect
send_packet msg_type body c =
    let total = (6 + length body % 2 ^ 32) % 2 ^ 32 in
    if ltb max_pending_send_buffer ((c.pending_bytes + total) % u64_mod)
    then disconnect c
    else arm (record c {
      pending = SendBuffer.append body (
          SendBuffer.append (htons (msg_type % 2 ^ 16))
            (SendBuffer.append (htonl total) c.pending));
      pending_bytes = (c.pending_bytes + total) % u64_mod;
    })

-- What `send` answers.
pub data Answer : Type 0 where
  accepts : ℕ → Answer
  would_block : Answer
  fails : Answer

-- How the loop of `handleWrite` ends: by its own tests, on `EAGAIN`, or on an error.
pub data Ending : Type 0 where
  drained blocked broken : Ending

-- The swap at the head of a round.
pub load_active : Connection → Connection
load_active c =
    if SendBuffer.remaining c.active == 0 && ltb 0 (SendBuffer.remaining c.pending)
    then record c { active = c.pending; pending = c.active }
    else c

-- What follows a `send` that took `sent` bytes.
pub took : ℕ → Connection → Connection
took sent c = record c {
  active = SendBuffer.consume sent c.active;
  pending_bytes = if leb sent c.pending_bytes then c.pending_bytes - sent else 0;
  wire = c.wire ++ take sent (SendBuffer.current_data c.active);
}

-- The loop. `send` takes at least one byte and at most what it is given; a list that is used up answers
-- `EAGAIN`.
pub flush_loop : List Answer → ℕ → Connection → Connection × Ending
flush_loop [] flushed c =
    let c' = load_active c in
    if ltb flushed write_flush_budget_bytes
    then if SendBuffer.remaining c'.active == 0 then (c', drained) else (c', blocked)
    else (c, drained)
flush_loop (a ∷ answers) flushed c =
    let c' = load_active c in
    let can_send = min (SendBuffer.remaining c'.active) (write_flush_budget_bytes - flushed) in
    let round : Connection × Ending = elim a [
      | accepts n ↦
          let sent = min (max 1 n) can_send in flush_loop answers (flushed + sent) (took sent c')
      | would_block ↦ (c', blocked)
      | fails ↦ (c', broken)
    ] in
    if ltb flushed write_flush_budget_bytes
    then if SendBuffer.remaining c'.active == 0 then (c', drained) else round
    else (c, drained)

-- `handleWrite` after the loop. The second test under the lock sees what the first one saw.
finish_write : Connection × Ending → Connection
finish_write (c, drained) =
    if SendBuffer.remaining c.active == 0 && SendBuffer.remaining c.pending == 0
    then ask_epollout false (record c { write_armed = false })
    else c
finish_write (c, blocked) = c
finish_write (c, broken) = disconnect c

pub handle_write : List Answer → Connection → Connection
unfolding finish_write disconnect
handle_write answers c = finish_write (flush_loop answers 0 c)
