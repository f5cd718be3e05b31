-- ===== src/Tasks/Bound.antt =====
-- What holds of a task queue however enqueuers and workers interleave.
use linux.Base.{
  ℕ, zero, suc, ◌+◌, ◌≤◌, ◌<◌, ◌≡◌, refl, ap, inl, inr, false, Option, none, some, List, [], ◌∷◌,
  arith, ltb, Bool-cases, length, length-append,
}
use linux.Tasks.{
  TaskQueue, init, enqueue, take_task, start, enqueue_task, take_next, put_back, taken_out,
  finish_task, Step, enqueues, takes, finishes, Reachable, starts, steps, worker_queue_limit,
}

-- The depth counts the tasks that wait or run, within the limit, and no task is lost.
pub record IsCounted {ℓ} {A : Type ℓ} (q : TaskQueue A) : Type 0 where
  pub depth_is : q.depth ≡ length q.pool.tasks + length q.pool.running
  pub limited : q.depth ≤ worker_queue_limit
  pub enqueued_is : q.enqueued ≡ q.depth + q.done
  pub done_is : q.done ≡ length q.pool.finished

module _ {ℓ} {A : Type ℓ} where
  pub enqueue_task-IsCounted :
      (task : A) (q : TaskQueue A) → IsCounted q → IsCounted (enqueue_task task q).1
  unfolding enqueue_task enqueue
  enqueue_task-IsCounted task q c = elim (Bool-cases (ltb worker_queue_limit (q.depth + 1))) [
    | inl e ↦ rw e (record {
      depth_is = c.depth_is;
      limited = c.limited;
      enqueued_is = c.enqueued_is;
      done_is = c.done_is;
    })
    | inr e ↦ rw e (record {
      depth_is = omega (arith, c.depth_is, length-append q.pool.tasks (task ∷ []));
      limited = ground arith;
      enqueued_is = omega (arith, c.enqueued_is);
      done_is = c.done_is;
    })
  ]

  pub take_next-IsCounted : (q : TaskQueue A) → IsCounted q → IsCounted (take_next q)
  unfolding take_next take_task
  take_next-IsCounted q c = waiting q.pool.tasks refl
    where
      waiting : (ts : List A) → q.pool.tasks ≡ ts → IsCounted (take_next q)
      waiting [] e = rw (take_next, e) c
      waiting (t ∷ ts) e =
          rw (take_next, e)
            (record {
              depth_is = omega (arith, c.depth_is, ap length e);
              limited = c.limited;
              enqueued_is = c.enqueued_is;
              done_is = c.done_is;
            })

  put_back-length :
      (task found : A) (o : Option (A × List A)) (tasks others : List A)
      → ((rest : List A) → o ≡ some (found, rest) → length tasks ≡ suc (length rest))
      → put_back task o ≡ some (found, others)
      → length (task ∷ tasks) ≡ suc (length others)
  unfolding put_back
  put_back-length task found none tasks others ih e = cc
  put_back-length task found (some (f, rest)) tasks others ih e =
      let same : task ∷ rest ≡ others = cc in omega (arith, ih rest (cc), ap length same)

  taken_out-length :
      (n : ℕ) (tasks : List A) (task : A) (others : List A)
      → taken_out n tasks ≡ some (task, others)
      → length tasks ≡ suc (length others)
  unfolding taken_out
  taken_out-length n [] task others e = cc
  taken_out-length zero (t ∷ tasks) task others e =
      let same : tasks ≡ others = cc in omega (arith, ap length same)
  taken_out-length (suc n) (t ∷ tasks) task others e =
      put_back-length t task (taken_out n tasks) tasks others
        (λ rest e'. taken_out-length n tasks task rest e') e

  pub finish_task-IsCounted : (n : ℕ) (q : TaskQueue A) → IsCounted q → IsCounted (finish_task n q)
  unfolding finish_task
  finish_task-IsCounted n q c = busy (taken_out n q.pool.running) refl
    where
      busy :
          (o : Option (A × List A)) → taken_out n q.pool.running ≡ o → IsCounted (finish_task n q)
      busy none e = rw (finish_task, e) c
      busy (some (t, ts)) e =
          let shorter = taken_out-length n q.pool.running t ts e in
          rw (finish_task, e)
            (record {
              depth_is = omega (arith, c.depth_is, shorter);
              limited = omega (arith, c.limited);
              enqueued_is = omega (arith, c.depth_is, shorter, c.enqueued_is);
              done_is = omega (arith, c.done_is, length-append q.pool.finished (t ∷ []));
            })

  -- In every reachable state, for a pool that started empty, the depth is the number of tasks that wait or
  -- run, it is within the limit, and every accepted task waits, runs or is finished.
  pub Reachable-IsCounted :
      (max_queue_size : ℕ) (q : TaskQueue A) → Reachable (init max_queue_size) q → IsCounted q
  unfolding init start
  Reachable-IsCounted n q starts = record {
    depth_is = refl;
    limited = omega arith;
    enqueued_is = refl;
    done_is = refl;
  }
  Reachable-IsCounted n q (steps r s) = after s (Reachable-IsCounted n _ r)
    where
      after : {q r : TaskQueue A} → Step q r → IsCounted q → IsCounted r
      after (enqueues {q = q} task) c = enqueue_task-IsCounted task q c
      after (takes {q = q}) c = take_next-IsCounted q c
      after (finishes {q = q} n) c = finish_task-IsCounted n q c

  -- A task that finds room and no other before it is taken by the next worker.
  pub taken_at_once :
      (task : A) (q : TaskQueue A)
      → q.depth < worker_queue_limit
      → q.pool.tasks ≡ []
      → taken_out 0 (take_next (enqueue_task task q).1).pool.running ≡ some (task, q.pool.running)
  unfolding enqueue_task enqueue take_next take_task taken_out
  taken_at_once task q room idle =
      let fits : ltb worker_queue_limit (q.depth + 1) ≡ false = ground arith in rw (fits, idle) refl
