-- ===== src/Reactor/Start.antt =====
-- `EpollChatServer::start`, `initDB` and `initRedis`: what is running when it enters the loop, or gives up.
pub mod Running
use linux.Base.{
  ℕ, zero, suc, ◌+◌, Bool, true, false, ◌&&◌, Option, none, some, [], ◌==◌, if◌then◌else◌,
}
use linux.ConnectionPool.{ConnectionPool, init}
use linux.Registry.{Registry}
use linux.Reactor.{Reactors}

-- What the calls of the operating system, MySQL and Redis answer while the server starts.
pub record System : Type 0 where
  pub socket : Bool
  pub bind : Bool
  pub listen : Bool
  -- The attempts to connect.
  pub mysql : ℕ → Option ℕ
  pub redis : ℕ → Option ℕ
  -- `REDIS_POOL_SIZE`, when it is set; 0 stands for a text that is no positive number.
  pub redis_pool_size : Option ℕ
  pub epoll : Bool
  pub hardware_concurrency : ℕ
  -- The `epoll_create1` of each sub-reactor.
  pub reactor_epoll : ℕ → Bool

pub record Started : Type 0 where
  pub db_pool : ConnectionPool
  pub redis_pool : ConnectionPool
  pub flush_thread : Bool
  pub retry_thread : Bool
  pub sub_reactors : ℕ

-- `start` returns `false`, the constructor of a sub-reactor throws, or `run` is entered.
pub data Ending : Type 0 where
  refused throws running : Ending

abbrev no_connections : ConnectionPool
no_connections = record { connections = []; handed_out = []; closed = [] }

abbrev pub nothing_started : Started
nothing_started = record {
  db_pool = no_connections;
  redis_pool = no_connections;
  flush_thread = false;
  retry_thread = false;
  sub_reactors = 0;
}

abbrev pub db_pool_size : ℕ
db_pool_size = 20

init_db : System → Started → Bool × Started
init_db sys s =
    let (ok, pool) = init sys.mysql db_pool_size s.db_pool in (ok, record s { db_pool = pool })

abbrev pub redis_size : Option ℕ → ℕ
redis_size none = 16
redis_size (some n) = if n == 0 then 16 else n

init_redis : System → Started → Bool × Started
init_redis sys s =
    let (ok, pool) = init sys.redis (redis_size sys.redis_pool_size) s.redis_pool in
    (ok, record s { redis_pool = pool })

-- The loop that makes the sub-reactors.
make_reactors : (ℕ → Bool) → ℕ → Started → Ending × Started
make_reactors epoll zero s = (running, s)
make_reactors epoll (suc left) s =
    let rest = make_reactors epoll left (record s { sub_reactors = s.sub_reactors + 1 }) in
    if epoll s.sub_reactors then rest else (throws, s)

abbrev pub reactor_count : ℕ → ℕ
reactor_count n = if n == 0 then 4 else n

start_threads : System → Started → Ending × Started
unfolding make_reactors
start_threads sys s =
    let s' = record s { flush_thread = true; retry_thread = true } in
    if sys.epoll
    then make_reactors sys.reactor_epoll (reactor_count sys.hardware_concurrency) s'
    else (refused, s')

after_redis : System → Bool × Started → Ending × Started
unfolding start_threads
after_redis sys (false, s) = (refused, s)
after_redis sys (true, s) = start_threads sys s

after_db : System → Bool × Started → Ending × Started
unfolding after_redis init_redis
after_db sys (false, s) = (refused, s)
after_db sys (true, s) = after_redis sys (init_redis sys s)

pub start : System → Ending × Started
unfolding after_db init_db
start sys =
    if sys.socket && sys.bind && sys.listen
    then after_db sys (init_db sys nothing_started)
    else (refused, nothing_started)

-- The reactors that connections are given to.
abbrev pub reactors : Registry → Started → Reactors
reactors r s = record {
  next_sub_reactor = 0;
  count = s.sub_reactors;
  watched = [];
  closed = [];
  registry = r;
}
