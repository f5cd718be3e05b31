-- ===== src/Connection/Threads.antt =====
-- `sendPacket` on any number of threads, `handleWrite` on the reactor's and `SubReactor::addFd` on the accepting
-- one, for one connection of EpollChatServer.cpp. A section under `sendMutex` is one step, and so is each call of
-- the kernel between two sections.
pub mod Safe
pub mod Order
pub mod Lost
pub mod Sequential
use linux.Base.{
  ℕ, ◌+◌, ◌-◌, ◌%◌, ◌^◌, ◌<◌, min, max, ◌≡◌, Bool, true, false, ◌&&◌, [], ◌++◌, Bytes, u64_mod, ltb,
  leb, ◌==◌, if◌then◌else◌, length, take,
}
use linux.SendBuffer
use linux.Framing.{htonl, htons, packet}
use linux.Connection.{
  Connection, Answer, accepts, would_block, fails, load_active, took, ask_epollout, disconnect,
  max_pending_send_buffer, write_flush_budget_bytes,
}

-- Where `handleWrite` stands, with the local variables that are live there.
pub data Writer : Type 0 where
  waiting : Writer  -- not running
  looping : (flushed : ℕ) → Writer  -- at the test of the `while`
  sending : (flushed can_send : ℕ) → Writer  -- before `send`
  taken : (flushed sent : ℕ) → Writer  -- after a `send` that took bytes
  finishing : Writer  -- behind the loop
  disabling : Writer  -- before the last `epoll_ctl`

pub record Shared : Type 0 where
  pub connection : Connection
  pub writer : Writer
  -- The calls of `sendPacket` that have still to ask for `EPOLLOUT`.
  pub enabling : ℕ
  -- The packets that were accepted, in the order of the mutex.
  pub queued : Bytes

-- A context that nothing was sent to.
abbrev pub new_shared : Connection → Shared
new_shared c = record { connection = c; writer = waiting; enabling = 0; queued = [] }

pub total_length : Bytes → ℕ
total_length body = (6 + length body % 2 ^ 32) % 2 ^ 32

-- `pendingNow + totalLength > MAX_PENDING_SEND_BUFFER`.
pub is_full : Bytes → Connection → Bool
unfolding total_length
is_full body c = ltb max_pending_send_buffer ((c.pending_bytes + total_length body) % u64_mod)

pub put : ℕ → Bytes → Connection → Connection
unfolding total_length
put msg_type body c = record c {
  pending = SendBuffer.append body (
      SendBuffer.append (htons (msg_type % 2 ^ 16))
        (SendBuffer.append (htonl (total_length body)) c.pending));
  pending_bytes = (c.pending_bytes + total_length body) % u64_mod;
  write_armed = true;
}

-- The section of `sendPacket`.
pub enqueue : ℕ → Bytes → Shared → Shared
unfolding is_full put
enqueue msg_type body s =
    if is_full body s.connection
    then record s { connection = disconnect s.connection }
    else record s {
      connection = put msg_type body s.connection;
      enabling = if s.connection.write_armed then s.enabling else s.enabling + 1;
      queued = s.queued ++ packet msg_type body;
    }

-- The `epoll_ctl` of `sendPacket`.
pub enable : Shared → Shared
enable s = record s { connection = ask_epollout true s.connection; enabling = s.enabling - 1 }

-- `addFd`: the context gets its `reactorEpollFd` and the descriptor is registered, without `EPOLLOUT`.
pub register : Shared → Shared
register s = record s { connection = record s.connection { has_reactor = true; epollout = false } }

-- The first section of a round.
load : ℕ → Shared → Shared
load flushed s =
    let c' = load_active s.connection in
    if ltb flushed write_flush_budget_bytes
    then record s {
      connection = c';
      writer =
          if SendBuffer.remaining c'.active == 0
          then finishing
          else sending flushed
              (min (SendBuffer.remaining c'.active) (write_flush_budget_bytes - flushed));
    }
    else record s { writer = finishing }

-- `send`: the kernel reads from the active buffer.
call : ℕ → ℕ → Answer → Shared → Shared
call flushed can_send (accepts n) s =
    let sent = min (max 1 n) can_send in
    record s {
      connection = record s.connection {
        wire = s.connection.wire ++ take sent (SendBuffer.current_data s.connection.active);
      };
      writer = taken flushed sent;
    }
call flushed can_send would_block s = record s { writer = waiting }
call flushed can_send fails s = record s { connection = disconnect s.connection; writer = waiting }

-- The section after `send`.
commit : ℕ → ℕ → Shared → Shared
commit flushed sent s = record s {
  connection = record s.connection {
    active = SendBuffer.consume sent s.connection.active;
    pending_bytes =
        if leb sent s.connection.pending_bytes then s.connection.pending_bytes - sent else 0;
  };
  writer = looping (flushed + sent);
}

-- The last section.
conclude : Shared → Shared
conclude s =
    if SendBuffer.remaining s.connection.active == 0
      && SendBuffer.remaining s.connection.pending == 0
    then record s { connection = record s.connection { write_armed = false }; writer = disabling }
    else record s { writer = waiting }

step_at : Writer → Answer → Shared → Shared
unfolding load call commit conclude
step_at waiting a s = s
step_at (looping flushed) a s = load flushed s
step_at (sending flushed can_send) a s = call flushed can_send a s
step_at (taken flushed sent) a s = commit flushed sent s
step_at finishing a s = conclude s
step_at disabling a s = record s { connection = ask_epollout false s.connection; writer = waiting }

-- The next step of `handleWrite`; the answer is what `send` answers, if it is called.
pub advance : Answer → Shared → Shared
unfolding step_at
advance a s = step_at s.writer a s

-- The reactor calls `handleWrite` only while the connection is registered for `EPOLLOUT`.
pub data Step : Shared → Shared → Type 0 where
  sends :
      {s : Shared} (msg_type : ℕ) (body : Bytes)
      → length body + 6 < 2 ^ 32
      → Step s (enqueue msg_type body s)
  registers : {s : Shared} → s.connection.has_reactor ≡ false → Step s (register s)
  enables : {s : Shared} → 0 < s.enabling → Step s (enable s)
  starts :
      {s : Shared}
      → s.writer ≡ waiting
      → s.connection.epollout ≡ true
      → Step s (record s { writer = looping 0 })
  advances : {s : Shared} (a : Answer) → Step s (advance a s)

pub data Steps (first : Shared) : Shared → Type 0 where
  none_yet : Steps first first
  then_one : {s s' : Shared} → Steps first s → Step s s' → Steps first s'
