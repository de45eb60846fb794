-- ===== src/Pool/Turns.antt =====
-- api/thread_pool.c: the turns of the pool's threads. A turn is what a thread does under the mutex; a
-- thread that finds nothing to do waits, and its turn changes nothing.
use pyoneer.Prelude.{
  ℕ, ◌-◌, ◌<◌, ◌≡◌, ◌≢◌, true, false, List, [], ◌∷◌, ◌++◌, arith, ◌⊎◌, if◌then◌else◌, ltb, ◌==◌,
  Option, none, some,
}
use pyoneer.Pool.{
  ThreadPool, Conn, queue_push, queue_pop, accepted, submit_step, leave, wait, take, work_step,
  thread_pool_shutdown,
}

-- The pool, how many of its workers have not left, and what has been accepted and taken so far.
pub record System : Type 0 where
  pub pool : ThreadPool
  pub workers : ℕ
  pub submitted : List Conn
  pub taken : List Conn

-- A turn of a submitter, of a worker, or of a thread that shuts the pool down.
pub data Turn : Type 0 where
  submit : Conn → Turn
  work : Turn
  shutdown : Turn

unfoldable pub submit_turn : System → Conn → System
unfolding submit_step
submit_turn s conn =
    let (pool, outcome) = submit_step s.pool conn in
    elim outcome [
      | accepted ↦ record s { pool = pool; submitted = s.submitted ++ conn ∷ [] }
      | _ ↦ s
    ]

-- The next turn of a worker, if one is left.
unfoldable pub work_turn : System → System
unfolding work_step
work_turn s =
    let (pool, outcome) = work_step s.pool in
    elim outcome [
      | leave ↦ record s { workers = s.workers - 1 }
      | wait ↦ s
      | take conn ↦ record s { pool = pool; taken = s.taken ++ conn ∷ [] }
    ]

unfoldable pub turn : System → Turn → System
unfolding submit_turn work_turn thread_pool_shutdown
turn s (submit conn) = submit_turn s conn
turn s work = if ltb 0 s.workers then work_turn s else s
turn s shutdown = record s { pool = thread_pool_shutdown s.pool }

unfoldable pub run : System → List Turn → System
run s [] = s
run s (t ∷ ts) = run (turn s t) ts

-- `thread_pool_destroy`: the shutdown, and the joins while these turns are taken; `none` is a join that
-- still waits.
unfoldable pub thread_pool_destroy : List Turn → System → Option System
unfolding run
thread_pool_destroy ts s =
    let s' = run (turn s shutdown) ts in if s'.workers == 0 then some s' else none

pub thread_pool_destroy-some :
    (ts : List Turn) (s : System)
    → (run (turn s shutdown) ts).workers ≡ 0
    → thread_pool_destroy ts s ≡ some (run (turn s shutdown) ts)
unfolding thread_pool_destroy
thread_pool_destroy-some ts s h = ground (arith, h)

pub thread_pool_destroy-none_left :
    (ts : List Turn) (s t : System)
    → thread_pool_destroy ts s ≡ some t
    → (t ≡ run (turn s shutdown) ts) × (t.workers ≡ 0)
unfolding thread_pool_destroy
thread_pool_destroy-none_left ts s t h = ground (arith, h)

-- A turn of a submitter that is accepted, and turns of a worker that takes or leaves.
abbrev pub pushed : System → Conn → System
pushed s conn = record s { pool = queue_push s.pool conn; submitted = s.submitted ++ conn ∷ [] }

abbrev pub popped : System → System
popped s = record s { pool = (queue_pop s.pool).0; taken = s.taken ++ (queue_pop s.pool).1 ∷ [] }

abbrev pub one_left : System → System
one_left s = record s { workers = s.workers - 1 }

pub submit_turn-cases :
    (s : System) (conn : Conn)
    → (submit_turn s conn ≡ s)
      ⊎ ((submit_turn s conn ≡ pushed s conn)
          × (s.pool.shutting_down ≡ false)
          × (s.pool.qlen ≢ s.pool.qcap))
unfolding submit_turn
submit_turn-cases s conn = ground arith

pub work_turn-cases :
    (s : System)
    → ((work_turn s ≡ s) × (s.pool.shutting_down ≡ false) × (s.pool.qlen ≡ 0))
      ⊎ ((work_turn s ≡ one_left s) × (s.pool.shutting_down ≡ true) × (s.pool.qlen ≡ 0))
      ⊎ ((work_turn s ≡ popped s) × (0 < s.pool.qlen))
unfolding work_turn
work_turn-cases s = ground arith
