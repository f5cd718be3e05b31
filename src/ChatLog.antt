-- ===== src/ChatLog.antt =====
-- The chat log queue: `enqueueChatLog` and `chatLogFlushLoop`, as a transition system. What is written to the
-- database, in order, is `written`. `flushChatLogsBatch` tells nobody whether its one INSERT was executed: it
-- returns early without a connection or a statement, or when the database refuses it, and the entries, popped
-- before, are gone. The function itself is `Database.flush_chat_logs_batch`; here
-- its outcome for each batch is a parameter, and what it loses is `lost`.
pub mod Order
use linux.Base.{
  ℕ, zero, suc, ◌+◌, ◌-◌, min, Bool, ◌&&◌, not, List, [], ◌∷◌, ◌++◌, leb, if◌then◌else◌, length,
  take, drop, is_empty,
}

abbrev pub chat_log_batch_size : ℕ
chat_log_batch_size = 128

abbrev pub chat_log_queue_limit : ℕ
chat_log_queue_limit = 200000

pub record ChatLog {ℓ} (A : Type ℓ) : Type ℓ where
  pub active_queue : List A
  pub flush_queue : List A
  pub queue_depth : ℕ
  pub dropped : ℕ
  pub written : List A
  pub lost : List A

module _ {ℓ} {A : Type ℓ} where
  pub enqueue_chat_log : A → ChatLog A → ChatLog A
  enqueue_chat_log entry s =
      if leb chat_log_queue_limit (length s.active_queue + length s.flush_queue)
      then record s { dropped = s.dropped + 1 }
      else record s { active_queue = s.active_queue ++ entry ∷ []; queue_depth = s.queue_depth + 1 }

  -- The exchange under the lock, which both loops reach with an empty flush queue.
  pub swap_queues : ChatLog A → ChatLog A
  swap_queues s =
      if is_empty s.flush_queue && not (is_empty s.active_queue)
      then record s { active_queue = s.flush_queue; flush_queue = s.active_queue }
      else s

  -- One batch leaves the flush queue, and is written when the INSERT is executed.
  pub flush_batch : Bool → ChatLog A → ChatLog A
  flush_batch inserted s =
      let n = min chat_log_batch_size (length s.flush_queue) in
      let batch = take n s.flush_queue in
      record s {
        flush_queue = drop n s.flush_queue;
        queue_depth = s.queue_depth - n;
        written = if inserted then s.written ++ batch else s.written;
        lost = if inserted then s.lost else s.lost ++ batch;
      }

  -- `while (!m_chatLogFlushQueue.empty())`, at most `fuel` times; `inserted` says which of the INSERTs, counted
  -- down, are executed.
  pub drain : (ℕ → Bool) → ℕ → ChatLog A → ChatLog A
  drain inserted zero s = s
  drain inserted (suc fuel) s =
      let rest = drain inserted fuel (flush_batch (inserted fuel) s) in
      if is_empty s.flush_queue then s else rest

  -- A round of the loop that empties the queues before the thread ends.
  pub final_round : (ℕ → Bool) → ChatLog A → ChatLog A
  final_round inserted s = let s' = swap_queues s in drain inserted (length s'.flush_queue) s'
