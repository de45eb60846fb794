-- ===== src/Server/Accept/Stopping.antt =====
-- api/server.c: the end of the loop once the server has been stopped.
use pyoneer.Prelude.{ℕ, ◌+◌, ◌≡◌, refl, sym, ap, ◌∙◌, true, List, [], ◌∷◌, ◌++◌, arith}
use mathlib.Core.List.{append_assoc, append-nil}
use pyoneer.Pool.{Conn, submit_step}
use pyoneer.Pool.Turns.{work}
use pyoneer.Pool.Threads.{shut-turn}
use pyoneer.Server.Accept.Steps.{submit_step-shut}
use pyoneer.Server.Accept.{
  Serving, Other, worker_turn, set_stop, shut_pool, other, others, server_stop, Progress, waiting,
  onward, conclude, submit_call, Arrival, no_arrival, accept_failed, arrival, arrived, accept_each,
  PollRound, ended, serve,
}

-- The flag is set and the pool is shutting down.
record IsStopped (s : Serving) : Type 0 where
  flag : s.stop_flag ≡ true
  down : s.system.pool.shutting_down ≡ true

server_stop-IsStopped : (s : Serving) → IsStopped (server_stop s)
unfolding server_stop
server_stop-IsStopped s = record { flag = refl; down = refl }

other-IsStopped :
    (s : Serving) (o : Other)
    → IsStopped s
    → IsStopped (other s o) × ((other s o).closed ≡ s.closed)
unfolding other
other-IsStopped s worker_turn p =
    (record { flag = p.flag; down = (shut-turn s.system work p.down).0 }, refl)
other-IsStopped s set_stop p = (record { flag = refl; down = p.down }, refl)
other-IsStopped s shut_pool p = (record { flag = p.flag; down = refl }, refl)

others-IsStopped :
    (s : Serving) (os : List Other)
    → IsStopped s
    → IsStopped (others s os) × ((others s os).closed ≡ s.closed)
unfolding others
others-IsStopped s [] p = (p, refl)
others-IsStopped s (o ∷ os) p =
    let (p', same) = other-IsStopped s o p in
    let (p'', same') = others-IsStopped (other s o) os p' in (p'', same' ∙ same)

-- The step goes on, in a server that is stopped still, and has closed these connections more.
abbrev Closes : Serving → List Conn → Progress → Type 0
Closes s conns (waiting s') = ⊥
Closes s conns (onward s') = IsStopped s' × (s'.closed ≡ s.closed ++ conns)

conclude-Closes :
    (s s' : Serving) (conn : Conn) (later : Progress)
    → IsStopped s'
    → s'.closed ≡ s.closed
    → Closes s (conn ∷ []) (conclude (submit_step s'.system.pool conn).1 later conn s')
unfolding conclude
conclude-Closes s s' conn later p same =
    rw (submit_step-shut s'.system.pool conn p.down)
      (record { flag = p.flag; down = p.down }, ap (λ cs. cs ++ conn ∷ []) same)

submit_call-Closes :
    (os : List (List Other)) (conn : Conn) (s : Serving)
    → IsStopped s
    → Closes s (conn ∷ []) (submit_call os conn s)
unfolding submit_call
submit_call-Closes [] conn s p = conclude-Closes s s conn (waiting s) p refl
submit_call-Closes (o ∷ os) conn s p =
    let (p', same) = others-IsStopped s o p in
    conclude-Closes s (others s o) conn (submit_call os conn (others s o)) p' same

-- The connections that come with a `poll`.
abbrev pub arrivals : ℕ → List Arrival → List Conn
arrivals i [] = []
arrivals i (arrival fd os ∷ more) = record { fd = fd; listener_index = i } ∷ arrivals (i + 1) more
arrivals i (_ ∷ more) = arrivals (i + 1) more

Closes-bind :
    (s : Serving) (conn : Conn) (conns : List Conn) (p : Progress) (k : Serving → Progress)
    → Closes s (conn ∷ []) p
    → ((s' : Serving) → IsStopped s' → Closes s' conns (k s'))
    → Closes s (conn ∷ conns) (elim p [ waiting s ↦ waiting s | onward s ↦ k s ])
Closes-bind s conn conns (waiting s') k c next = c
Closes-bind s conn conns (onward s') k (stopped, same) next = widen (k s') (next s' stopped)
  where
    widen : (p : Progress) → Closes s' conns p → Closes s (conn ∷ conns) p
    widen (waiting t) c = c
    widen (onward t) (stopped', more) =
        (stopped', more ∙ ap (λ cs. cs ++ conns) same ∙ append_assoc s.closed (conn ∷ []) conns)

accept_each-Closes :
    (i : ℕ) (as' : List Arrival) (s : Serving)
    → IsStopped s
    → Closes s (arrivals i as') (accept_each i as' s)
unfolding accept_each
accept_each-Closes i [] s p = (p, sym (append-nil s.closed))
accept_each-Closes i (no_arrival ∷ more) s p = accept_each-Closes (i + 1) more s p
accept_each-Closes i (accept_failed ∷ more) s p = accept_each-Closes (i + 1) more s p
accept_each-Closes i (arrival fd os ∷ more) s p =
    let conn : Conn = record { fd = fd; listener_index = i } in
    Closes-bind s conn (arrivals (i + 1) more) (submit_call os conn (arrived conn s))
      (accept_each (i + 1) more)
      (submit_call-Closes os conn (arrived conn s) (record { flag = p.flag; down = p.down }))
      λ s' p'. accept_each-Closes (i + 1) more s' p'

serve-stopped :
    (r : PollRound) (rs : List PollRound) (s : Serving)
    → IsStopped s
    → serve (r ∷ rs) s ≡ ended (others s r.before)
unfolding serve
serve-stopped r rs s p = ground (arith, (others-IsStopped s r.before p).0.flag)

-- The step goes on, and has closed these connections more.
abbrev pub OnwardClosing : Serving → List Conn → Progress → Type 0
OnwardClosing s conns (waiting s') = ⊥
OnwardClosing s conns (onward s') = s'.closed ≡ s.closed ++ conns

Closes-OnwardClosing :
    (s : Serving) (conns : List Conn) (p : Progress) → Closes s conns p → OnwardClosing s conns p
Closes-OnwardClosing s conns (waiting s') c = c
Closes-OnwardClosing s conns (onward s') (_, c) = c

-- After `server_stop`, whatever state the server was in: a submission does not wait but closes its connection, and so do those
-- for the listeners that are left of the round; and the loop ends at its next test of the flag.
pub server_stop_ends :
    (s : Serving)
    → ((os : List (List Other)) (conn : Conn)
        → OnwardClosing (server_stop s) (conn ∷ []) (submit_call os conn (server_stop s)))
      × ((i : ℕ) (as' : List Arrival)
          → OnwardClosing (server_stop s) (arrivals i as') (accept_each i as' (server_stop s)))
      × ((r : PollRound) (rs : List PollRound)
          → serve (r ∷ rs) (server_stop s) ≡ ended (others (server_stop s) r.before))
server_stop_ends s =
    let p = server_stop-IsStopped s in
    (
      (λ os conn.
          Closes-OnwardClosing (server_stop s) (conn ∷ []) (submit_call os conn (server_stop s))
            (submit_call-Closes os conn (server_stop s) p)),
      (λ i as'.
          Closes-OnwardClosing (server_stop s) (arrivals i as') (accept_each i as' (server_stop s))
            (accept_each-Closes i as' (server_stop s) p)),
      λ r rs. serve-stopped r rs (server_stop s) p,
    )
