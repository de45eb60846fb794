-- ===== src/Server/Accept.antt =====
-- api/server.c: the loop that accepts connections and submits them to the pool. The other threads, the
-- workers of the pool and whoever stops the server, run between its steps.
pub mod Steps
pub mod Keeps
pub mod Ledger
pub mod Drained
pub mod Stopping
mod Samples
use pyoneer.Prelude.{ℕ, ◌+◌, Bool, true, false, List, [], ◌∷◌, ◌++◌, if◌then◌else◌}
use pyoneer.Pool.{Conn, Submit, rejected, accepted, blocked, submit_step}
use pyoneer.Pool.Turns.{System, work, shutdown, turn, submit_turn}

-- What the loop has done so far: the connections that `accept` gave and those that it closed itself.
pub record Serving : Type 0 where
  pub system : System
  pub stop_flag : Bool
  pub seen : List Conn
  pub closed : List Conn

-- A turn of a worker of the pool, or one of the two things that `server_stop` does.
pub data Other : Type 0 where
  worker_turn set_stop shut_pool : Other

unfoldable pub other : Serving → Other → Serving
unfolding turn
other s worker_turn = record s { system = turn s.system work }
other s set_stop = record s { stop_flag = true }
other s shut_pool = record s { system = turn s.system shutdown }

-- The server has a pool.
unfoldable pub server_stop : Serving → Serving
unfolding other
server_stop s = other (other s set_stop) shut_pool

unfoldable pub others : Serving → List Other → Serving
unfolding other
others s [] = s
others s (o ∷ os) = others (other s o) os

-- The loop waits inside `thread_pool_submit`, or goes on.
pub data Progress : Type 0 where
  waiting onward : Serving → Progress

-- What `thread_pool_submit` and the code behind its call make of one look at the queue; `later` is what
-- comes of a wait.
unfoldable pub conclude : Submit → Progress → Conn → Serving → Progress
conclude rejected later conn s = onward (record s { closed = s.closed ++ conn ∷ [] })
conclude accepted later conn s = onward (record s { system = submit_turn s.system conn })
conclude blocked later conn s = later

-- `thread_pool_submit` with a new connection, which is closed where it is rejected: others run before
-- each look at the queue; when they have run for the last time and the queue is full still, it waits.
unfoldable pub submit_call : List (List Other) → Conn → Serving → Progress
unfolding conclude submit_step
submit_call [] conn s = conclude (submit_step s.system.pool conn).1 (waiting s) conn s
submit_call (os ∷ more) conn s =
    let s' = others s os in
    conclude (submit_step s'.system.pool conn).1 (submit_call more conn s') conn s'

-- What a listener has after a `poll`: nothing, an `accept` that fails, or a connection and what others do while it is submitted.
pub data Arrival : Type 0 where
  no_arrival accept_failed : Arrival
  arrival : ℕ → List (List Other) → Arrival

abbrev pub arrived : Conn → Serving → Serving
arrived conn s = record s { seen = s.seen ++ conn ∷ [] }

-- The loop over the listeners, from the one with index `i` on.
unfoldable pub accept_each : ℕ → List Arrival → Serving → Progress
unfolding submit_call
accept_each i [] s = onward s
accept_each i (no_arrival ∷ more) s = accept_each (i + 1) more s
accept_each i (accept_failed ∷ more) s = accept_each (i + 1) more s
accept_each i (arrival fd os ∷ more) s =
    let conn : Conn = record { fd = fd; listener_index = i } in
    elim (submit_call os conn (arrived conn s)) [
      | waiting s' ↦ waiting s'
      | onward s' ↦ accept_each (i + 1) more s'
    ]

-- What `poll` answers: an error, an interruption or a time-out, or the listeners that are ready.
pub data Poll : Type 0 where
  poll_failed poll_idle : Poll
  poll_ready : List Arrival → Poll

-- A round of the loop: what others do before the flag is tested, and what `poll` then answers.
pub record PollRound : Type 0 where
  pub before : List Other
  pub poll : Poll

-- The loop has ended, or it waits in a submission, or it goes on behind the rounds that are given.
pub data Loop : Type 0 where
  ended in_submit in_loop : Serving → Loop

unfoldable pub serve : List PollRound → Serving → Loop
unfolding others accept_each
serve [] s = in_loop s
serve (r ∷ rs) s =
    let s' = others s r.before in
    let skip = serve rs s' in
    if s'.stop_flag then ended s' else elim r.poll [
      | poll_failed ↦ ended s'
      | poll_idle ↦ skip
      | poll_ready as' ↦ elim (accept_each 0 as' s') [
        | waiting s'' ↦ in_submit s''
        | onward s'' ↦ serve rs s''
      ]
    ]

-- `server_run` of a server that is there: `calloc` of the descriptors succeeds, or nothing is served and
-- the result is -1.
unfoldable pub server_run : Bool → List PollRound → Serving → Bool × Loop
unfolding serve
server_run allocated rounds s = if allocated then (true, serve rounds s) else (false, ended s)
