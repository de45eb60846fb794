-- ===== src/Server/Accept/Samples.antt =====
-- api/server.c: a server with a pool of one worker and room for two connections.
use pyoneer.Prelude.{ℕ, ◌≡◌, refl, true, false, List, [], ◌∷◌, ◌++◌, some}
use pyoneer.Pool.{ThreadPool, Conn, no_conn, thread_pool_init, queue_push, queue_pop}
use pyoneer.Pool.Turns.{System, Turn, thread_pool_destroy}
use pyoneer.Server.Accept.{
  Serving, Other, worker_turn, set_stop, shut_pool, others, server_stop, submit_call, accept_failed,
  Arrival, arrival, accept_each, poll_idle, poll_ready, PollRound, ended, in_submit, in_loop, Loop,
  serve, server_run,
}
use pyoneer.Server.Accept.Ledger.{new_serving, LoopAccounted, server_run-Accounted}
use pyoneer.Server.Accept.Drained.{server_run-drained}
use pyoneer.Server.Accept.Stopping.{OnwardClosing, arrivals, server_stop_ends}

abbrev pool : ThreadPool
pool = record {
  nthreads = 1;
  queue = no_conn ∷ no_conn ∷ [];
  qcap = 2;
  qhead = 0;
  qtail = 0;
  qlen = 0;
  shutting_down = false;
}

pool-created : thread_pool_init 1 2 true true ≡ some pool
unfolding thread_pool_init
pool-created = refl

-- Three connections, of which the last waits until a worker has taken one; then one that comes while the
-- server is being stopped.
abbrev rounds : List PollRound
rounds =
    record {
      before = [];
      poll =
          poll_ready (arrival 5 [] ∷ arrival 6 [] ∷ arrival 7 ([] ∷ (worker_turn ∷ []) ∷ []) ∷ []);
    }
    ∷ record { before = worker_turn ∷ []; poll = poll_idle }
    ∷ record {
      before = [];
      poll = poll_ready (accept_failed ∷ arrival 8 ((set_stop ∷ shut_pool ∷ []) ∷ []) ∷ []);
    }
    ∷ record { before = []; poll = poll_idle }
    ∷ []

server_run-Accounted_example : LoopAccounted (server_run true rounds (new_serving pool)).1
server_run-Accounted_example = server_run-Accounted 1 2 true true pool true rounds pool-created

server_stop_ends_example :
    ((os : List (List Other)) (conn : Conn)
      → OnwardClosing
          (server_stop (new_serving pool))
          (conn ∷ [])
          (submit_call os conn (server_stop (new_serving pool))))
    × ((i : ℕ) (as' : List Arrival)
        → OnwardClosing
            (server_stop (new_serving pool))
            (arrivals i as')
            (accept_each i as' (server_stop (new_serving pool))))
    × ((r : PollRound) (rs : List PollRound)
        → serve (r ∷ rs) (server_stop (new_serving pool))
          ≡ ended (others (server_stop (new_serving pool)) r.before))
server_stop_ends_example = server_stop_ends (new_serving pool)

abbrev end_of : Loop → Serving
end_of (ended s) = s
end_of (in_submit s) = s
end_of (in_loop s) = s

abbrev last : Serving
last = end_of (server_run true rounds (new_serving pool)).1

rounds-ended : (server_run true rounds (new_serving pool)).1 ≡ ended last
unfolding server_run submit_call queue_push queue_pop
rounds-ended = refl

server_run-drained_example :
    ((ts : List Turn) × (t : System) × (thread_pool_destroy ts last.system ≡ some t))
    × ((ts : List Turn) (t : System)
        → thread_pool_destroy ts last.system ≡ some t
        → last.seen ≡ t.taken ++ last.closed)
server_run-drained_example =
    server_run-drained 1 2 true true pool rounds last pool-created rounds-ended

-- The connection that came while the server was stopped is the one that was closed.
last_closed : last.closed ≡ record { fd = 8; listener_index = 1 } ∷ []
unfolding server_run submit_call queue_push queue_pop
last_closed = refl
