-- ===== src/Pool/Threads/Samples.antt =====
-- api/thread_pool.c: a pool of one worker with room for two connections.
use pyoneer.Prelude.{
  ℕ, ◌+◌, ◌≡◌, ◌≤◌, refl, true, false, some, List, [], ◌∷◌, ◌++◌, arith, length, replicate,
}
use pyoneer.Pool.{ThreadPool, Conn, no_conn, thread_pool_init}
use pyoneer.Pool.Queue.{IsRing, pending}
use pyoneer.Pool.Turns.{Turn, submit, work, shutdown, turn, run}
use pyoneer.Pool.Threads.{new_system, no_connection_lost, shutdown_drains}

abbrev pub conn : ℕ → Conn
conn fd = record { fd = fd; listener_index = 0 }

abbrev pub fresh_pool : ThreadPool
fresh_pool = record {
  nthreads = 1;
  queue = no_conn ∷ no_conn ∷ [];
  qcap = 2;
  qhead = 0;
  qtail = 0;
  qlen = 0;
  shutting_down = false;
}

-- The ring has wrapped around.
abbrev pub wrapped_pool : ThreadPool
wrapped_pool = record fresh_pool { queue = conn 5 ∷ conn 4 ∷ []; qhead = 1; qtail = 0; qlen = 1 }

fresh_pool-created : thread_pool_init 1 2 true true ≡ some fresh_pool
unfolding thread_pool_init
fresh_pool-created = refl

pub wrapped_pool-IsRing : IsRing wrapped_pool
wrapped_pool-IsRing = record {
  room = ground arith;
  head_in = ground arith;
  len_le = ground arith;
  tail_at = ground arith;
}

-- Three submits of which the third blocks, a turn of the worker, and another submit.
abbrev busy_turns : List Turn
busy_turns = submit (conn 3) ∷ submit (conn 4) ∷ submit (conn 5) ∷ work ∷ submit (conn 6) ∷ []

abbrev last_turns : List Turn
last_turns = submit (conn 3) ∷ shutdown ∷ work ∷ work ∷ []

no_connection_lost_example :
    ((run (new_system fresh_pool) busy_turns).submitted
      ≡ (run (new_system fresh_pool) busy_turns).taken
        ++ pending (run (new_system fresh_pool) busy_turns).pool)
    × (length (pending (run (new_system fresh_pool) busy_turns).pool)
        ≤ (run (new_system fresh_pool) busy_turns).pool.qcap)
no_connection_lost_example =
    no_connection_lost 1 2 true true fresh_pool fresh_pool-created busy_turns

shutdown_drains_example :
    ((run (turn (run (new_system fresh_pool) busy_turns) shutdown) (
        replicate
          ((run (new_system fresh_pool) busy_turns).pool.qlen
            + (run (new_system fresh_pool) busy_turns).workers)
          work)).workers
      ≡ 0)
    × ((us : List Turn)
        → (run (turn (run (new_system fresh_pool) busy_turns) shutdown) us).submitted
          ≡ (run (new_system fresh_pool) busy_turns).submitted)
shutdown_drains_example = shutdown_drains 1 2 true true fresh_pool fresh_pool-created busy_turns
