-- ===== src/Reactor/Start/Running.antt =====
-- What is there when the server runs.
use linux.Base.{
  ℕ, zero, suc, ◌+◌, ◌<◌, ◌≡◌, refl, sym, ap, ◌∙◌, subst, inl, inr, Bool, true, false, ◌&&◌, Option,
  some, List, [], arith, u64_mod, Bool-cases, length, true_ne_false,
}
use linux.ConnectionPool.Full.{init-full, init_succeeds}
use linux.Registry.{ClientContext, Registry}
use linux.Reactor.{handle_accept}
use linux.Reactor.Accept.{in_turn, handle_accept-watched}
use linux.Reactor.Start.{
  System, Started, refused, throws, running, start, init_db, init_redis, make_reactors,
  start_threads, after_redis, after_db, reactors, redis_size, db_pool_size, reactor_count,
  nothing_started,
}

make_reactors-running :
    (epoll : ℕ → Bool) (n : ℕ) (s : Started)
    → (make_reactors epoll n s).0 ≡ running
    → (make_reactors epoll n s).1 ≡ record s { sub_reactors = s.sub_reactors + n }
unfolding make_reactors
make_reactors-running epoll zero s e = ap (λ k. record s { sub_reactors = k }) (omega arith)
make_reactors-running epoll (suc n) s e = elim (Bool-cases (epoll s.sub_reactors)) [
  | inl f ↦ rw f (
      make_reactors-running epoll n (record s { sub_reactors = s.sub_reactors + 1 }) (rw f at e)
      ∙ ap (λ k. record s { sub_reactors = k }) (omega arith))
  | inr f ↦ let no : throws ≡ running = rw f at e in cc
]

-- Both pools have their connections, both threads run, and there are sub-reactors.
pub record IsRunning (pool_size : Option ℕ) (s : Started) : Type 0 where
  pub db : length s.db_pool.connections ≡ db_pool_size
  pub redis : length s.redis_pool.connections ≡ redis_size pool_size
  pub flush : s.flush_thread ≡ true
  pub retry : s.retry_thread ≡ true
  pub some_reactors : 0 < s.sub_reactors

start_threads-IsRunning :
    (sys : System) (s : Started)
    → length s.db_pool.connections ≡ db_pool_size
    → length s.redis_pool.connections ≡ redis_size sys.redis_pool_size
    → (start_threads sys s).0 ≡ running
    → IsRunning sys.redis_pool_size (start_threads sys s).1
unfolding start_threads
start_threads-IsRunning sys s d r e = elim (Bool-cases sys.epoll) [
  | inl f ↦
      let made =
        make_reactors-running sys.reactor_epoll (reactor_count sys.hardware_concurrency)
          (record s { flush_thread = true; retry_thread = true }) (rw f at e) in
      rw f (
        subst (IsRunning sys.redis_pool_size) (sym made)
          (record { db = d; redis = r; flush = refl; retry = refl; some_reactors = ground arith }))
  | inr f ↦ let no : refused ≡ running = rw f at e in cc
]

after_redis-IsRunning :
    (sys : System) (r : Bool × Started)
    → (r.0 ≡ true
        → (length r.1.db_pool.connections ≡ db_pool_size)
          × (length r.1.redis_pool.connections ≡ redis_size sys.redis_pool_size))
    → (after_redis sys r).0 ≡ running
    → IsRunning sys.redis_pool_size (after_redis sys r).1
unfolding after_redis
after_redis-IsRunning sys (false, s) h e = let no : refused ≡ running = e in cc
after_redis-IsRunning sys (true, s) h e = let (d, r) = h refl in start_threads-IsRunning sys s d r e

after_db-IsRunning :
    (sys : System) (r : Bool × Started)
    → (r.0 ≡ true
        → (length r.1.db_pool.connections ≡ db_pool_size) × (r.1.redis_pool.connections ≡ []))
    → (after_db sys r).0 ≡ running
    → IsRunning sys.redis_pool_size (after_db sys r).1
unfolding after_db init_redis
after_db-IsRunning sys (false, s) h e = let no : refused ≡ running = e in cc
after_db-IsRunning sys (true, s) h e =
    let (d, empty) = h refl in
    after_redis-IsRunning sys (init_redis sys s)
      (λ ok. (
        d,
        init-full sys.redis (redis_size sys.redis_pool_size) s.redis_pool ok
            ∙ rw empty (omega arith),
      ))
      e

pub start-IsRunning :
    (sys : System) → (start sys).0 ≡ running → IsRunning sys.redis_pool_size (start sys).1
unfolding start init_db
start-IsRunning sys e = elim (Bool-cases (sys.socket && sys.bind && sys.listen)) [
  | inl f ↦ rw f (
      after_db-IsRunning sys (init_db sys nothing_started)
        (λ ok. (init-full sys.mysql db_pool_size nothing_started.db_pool ok, refl)) (rw f at e))
  | inr f ↦ let no : refused ≡ running = rw f at e in cc
]

-- `start` enters the loop when every call succeeds.
pub start_runs :
    (sys : System)
    → (sys.socket && sys.bind && sys.listen) ≡ true
    → ((i : ℕ) → (conn : ℕ) × (sys.mysql i ≡ some conn))
    → ((i : ℕ) → (conn : ℕ) × (sys.redis i ≡ some conn))
    → sys.epoll ≡ true
    → ((i : ℕ) → sys.reactor_epoll i ≡ true)
    → (start sys).0 ≡ running
unfolding start after_db init_db after_redis init_redis start_threads make_reactors
start_runs sys calls mysql redis epoll made =
    rw (calls, start)
      (up (init_db sys nothing_started) (init_succeeds sys.mysql db_pool_size _ mysql))
  where
    reactors_made : (n : ℕ) (s : Started) → (make_reactors sys.reactor_epoll n s).0 ≡ running
    reactors_made zero s = refl
    reactors_made (suc n) s =
        rw (made s.sub_reactors) (reactors_made n (record s { sub_reactors = s.sub_reactors + 1 }))

    threads : (r : Bool × Started) → r.0 ≡ true → (after_redis sys r).0 ≡ running
    threads (false, s) ok = absurd (true_ne_false (sym ok))
    threads (true, s) ok = rw epoll (reactors_made (reactor_count sys.hardware_concurrency) _)

    up : (r : Bool × Started) → r.0 ≡ true → (after_db sys r).0 ≡ running
    up (false, s) ok = absurd (true_ne_false (sym ok))
    up (true, s) ok =
        threads (init_redis sys s)
          (init_succeeds sys.redis (redis_size sys.redis_pool_size) _ redis)

-- When `start` enters the loop, whatever the system answered before: the pools have their 20 connections and
-- those that `REDIS_POOL_SIZE` asks for, the flushing and the retrying thread run, and every connection that
-- `handleAccept` then gets, for fewer than `2 ^ 64`, is watched by the sub-reactors in turn, none closed for want of one.
pub start-handle_accept :
    (sys : System) (r : Registry) (ctxs : List ClientContext)
    → (start sys).0 ≡ running
    → length ctxs < u64_mod
    → let s = (start sys).1 in
      IsRunning sys.redis_pool_size s
      × ((handle_accept ctxs (reactors r s)).watched ≡ in_turn s.sub_reactors 0 ctxs)
      × ((handle_accept ctxs (reactors r s)).closed ≡ [])
start-handle_accept sys r ctxs e few =
    let up = start-IsRunning sys e in
    let (watched, closed) =
      handle_accept-watched ctxs (reactors r (start sys).1) up.some_reactors (omega arith) in
    (up, watched, closed)
