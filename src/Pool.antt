-- ===== src/Pool.antt =====
-- api/thread_pool.c: the bounded queue of accepted connections, and what its threads do to it. All
-- state is under one mutex, so what a thread does between taking it and giving it up, or waiting on
-- a condition, is one step.
pub mod Queue
pub mod Turns
pub mod Threads
pub mod Destroy
pub mod Specs
pub mod Abstract
use pyoneer.Prelude.{
  ℕ, zero, suc, ◌+◌, ◌-◌, ◌%◌, Bool, true, false, not, ◌&&◌, ◌||◌, Option, none, some, List, get_or,
  set, replicate, ◌==◌, if◌then◌else◌,
}

-- The `job` of the pool: a connection and the listener that accepted it.
pub record Conn : Type 0 where
  pub fd : ℕ
  pub listener_index : ℕ

abbrev pub no_conn : Conn
no_conn = record { fd = 0; listener_index = 0 }

-- `struct ThreadPool`, less its threads, which stand in `Threads`, and the synchronisation objects.
pub record ThreadPool : Type 0 where
  pub nthreads : ℕ
  pub queue : List Conn
  pub qcap : ℕ
  pub qhead : ℕ
  pub qtail : ℕ
  pub qlen : ℕ
  pub shutting_down : Bool

-- A write or a read out of the array is no case of the invariant.
unfoldable pub queue_push : ThreadPool → Conn → ThreadPool
queue_push pool conn = record pool {
  queue = set pool.queue pool.qtail conn;
  qtail = (pool.qtail + 1) % pool.qcap;
  qlen = pool.qlen + 1;
}

-- `qlen` is positive where it is called.
unfoldable pub queue_pop : ThreadPool → ThreadPool × Conn
queue_pop pool = (
  record pool { qhead = (pool.qhead + 1) % pool.qcap; qlen = pool.qlen - 1 },
  get_or pool.queue pool.qhead no_conn,
)

-- `thread_pool_create` up to the start of the workers: `server` is there, and each of the three
-- allocations succeeds; `EINVAL` and a failed allocation are NULL.
unfoldable pub thread_pool_init : ℕ → ℕ → Bool → Bool → Option ThreadPool
thread_pool_init nworkers qcap server allocated =
    if nworkers == 0 || qcap == 0 || not server
    then none
    else if allocated
    then some (record {
      nthreads = nworkers;
      queue = replicate qcap no_conn;
      qcap = qcap;
      qhead = 0;
      qtail = 0;
      qlen = 0;
      shutting_down = false;
    })
    else none

-- The start of the workers: `created k` says whether `pthread_create` succeeds for thread `k`, and
-- the loop has `n` threads to go. A failure shuts down, joins the threads that are there, and frees.
unfoldable pub start_workers : ℕ → ℕ → (ℕ → Bool) → ThreadPool → Option ThreadPool
start_workers zero k created pool = some pool
start_workers (suc n) k created pool =
    let rest = start_workers n (k + 1) created pool in if created k then rest else none

-- What `thread_pool_submit` finds once it holds the mutex, at first and after each wait.
pub data Submit : Type 0 where
  rejected accepted blocked : Submit

unfoldable pub submit_step : ThreadPool → Conn → ThreadPool × Submit
submit_step pool conn =
    if pool.shutting_down
    then (pool, rejected)
    else if pool.qlen == pool.qcap
    then (pool, blocked)
    else (queue_push pool conn, accepted)

-- What `worker_thread` finds: it leaves, waits, or takes a connection.
pub data Work : Type 0 where
  leave wait : Work
  take : Conn → Work

unfoldable pub work_step : ThreadPool → ThreadPool × Work
work_step pool =
    if pool.qlen == 0 && not pool.shutting_down
    then (pool, wait)
    else if pool.qlen == 0 && pool.shutting_down
    then (pool, leave)
    else let (pool', conn) = queue_pop pool in (pool', take conn)

unfoldable pub thread_pool_shutdown : ThreadPool → ThreadPool
thread_pool_shutdown pool = record pool { shutting_down = true }
