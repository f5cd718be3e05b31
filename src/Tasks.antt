-- ===== src/Tasks.antt =====
-- `ThreadPool` and the two task queues in front of it, as a transition system: `stop` and the queue are under
-- the mutex, and a worker takes a task in one step and is done with it in another.
pub mod Bound
use linux.Base.{
  ℕ, zero, suc, ◌+◌, ◌-◌, Bool, true, false, ◌&&◌, Option, none, some, List, [], ◌∷◌, ◌++◌, ltb,
  leb, if◌then◌else◌, length, is_empty,
}

pub record ThreadPool {ℓ} (A : Type ℓ) : Type ℓ where
  pub tasks : List A
  -- The tasks that workers have taken and not finished.
  pub running : List A
  pub finished : List A
  pub stop : Bool
  pub max_queue_size : ℕ

module _ {ℓ} {A : Type ℓ} where
  -- The constructor, without its threads.
  unfoldable pub init : ℕ → ThreadPool A
  init max_queue_size = record {
    tasks = [];
    running = [];
    finished = [];
    stop = false;
    max_queue_size = max_queue_size;
  }

  pub enqueue : A → ThreadPool A → ThreadPool A
  enqueue task p = record p { tasks = p.tasks ++ task ∷ [] }

  pub try_enqueue : A → ThreadPool A → Bool × ThreadPool A
  unfolding enqueue
  try_enqueue task p =
      if p.stop
      then (false, p)
      else if ltb 0 p.max_queue_size && leb p.max_queue_size (length p.tasks)
      then (false, p)
      else (true, enqueue task p)

  -- A worker that holds the lock: `none` while it waits or when it ends, and the task it takes otherwise.
  pub take_task : ThreadPool A → Option (A × ThreadPool A)
  take_task p = elim p.tasks [
    | [] ↦ none
    | task ∷ rest ↦ some (task, record p { tasks = rest; running = task ∷ p.running })
  ]

  -- The destructor's first line.
  pub request_stop : ThreadPool A → ThreadPool A
  request_stop p = record p { stop = true }

  -- `this->stop && this->tasks.empty()`, on which a worker ends.
  pub worker_ends : ThreadPool A → Bool
  worker_ends p = p.stop && is_empty p.tasks

abbrev pub worker_queue_limit : ℕ
worker_queue_limit = 20000

-- The counters of `enqueueDbTask`, and of `enqueueRedisTask`, which keeps its own of the same kind.
pub record TaskQueue {ℓ} (A : Type ℓ) : Type ℓ where
  pub pool : ThreadPool A
  pub depth : ℕ
  pub enqueued : ℕ
  pub done : ℕ
  pub timeouts : ℕ

module _ {ℓ} {A : Type ℓ} where
  unfoldable pub start : ThreadPool A → TaskQueue A
  start p = record { pool = p; depth = 0; enqueued = 0; done = 0; timeouts = 0 }

  -- `enqueueDbTask`, `enqueueRedisTask`.
  pub enqueue_task : A → TaskQueue A → Bool × TaskQueue A
  enqueue_task task q =
      if ltb worker_queue_limit (q.depth + 1)
      then (false, record q { timeouts = q.timeouts + 1 })
      else (
        true,
        record q { pool = enqueue task q.pool; depth = q.depth + 1; enqueued = q.enqueued + 1 },
      )

  -- A worker takes the next task.
  pub take_next : TaskQueue A → TaskQueue A
  unfolding take_task
  take_next q = elim (take_task q.pool) [ none ↦ q | some (task, p) ↦ record q { pool = p } ]

  put_back : A → Option (A × List A) → Option (A × List A)
  put_back task none = none
  put_back task (some (found, rest)) = some (found, task ∷ rest)

  -- The task at a position, and the others.
  pub taken_out : ℕ → List A → Option (A × List A)
  unfolding put_back
  taken_out n [] = none
  taken_out zero (task ∷ tasks) = some (task, tasks)
  taken_out (suc n) (task ∷ tasks) = put_back task (taken_out n tasks)

  -- The end of a queued closure, after `task()`: any of the workers' tasks, by its position.
  pub finish_task : ℕ → TaskQueue A → TaskQueue A
  finish_task n q = elim (taken_out n q.pool.running) [
    | none ↦ q
    | some (task, rest) ↦ record q {
      pool = record q.pool { running = rest; finished = q.pool.finished ++ task ∷ [] };
      depth = q.depth - 1;
      done = q.done + 1;
    }
  ]

  -- What can happen to a queue.
  pub data Step : TaskQueue A → TaskQueue A → Type ℓ where
    enqueues : {q : TaskQueue A} (task : A) → Step q (enqueue_task task q).1
    takes : {q : TaskQueue A} → Step q (take_next q)
    finishes : {q : TaskQueue A} (n : ℕ) → Step q (finish_task n q)

  pub data Reachable (p : ThreadPool A) : TaskQueue A → Type ℓ where
    starts : Reachable p (start p)
    steps : {q r : TaskQueue A} → Reachable p q → Step q r → Reachable p r
