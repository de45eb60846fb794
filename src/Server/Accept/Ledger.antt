-- ===== src/Server/Accept/Ledger.antt =====
-- api/server.c: the account of the connections that the loop accepts.
use pyoneer.Prelude.{
  ℕ, ◌≡◌, refl, ap, ◌∙◌, Bool, true, false, List, [], ◌∷◌, ◌++◌, ◌⊎◌, inl, some, if◌then◌else◌,
}
use pyoneer.Pool.{ThreadPool, Conn, thread_pool_init}
use pyoneer.Pool.Queue.{pending}
use pyoneer.Pool.Threads.{new_system, new_system-IsPool}
use pyoneer.Server.Accept.{
  Serving, others, Progress, waiting, onward, accept_each, Poll, poll_failed, poll_idle, poll_ready,
  PollRound, Loop, ended, in_submit, in_loop, serve, server_run,
}
use pyoneer.Server.Accept.Keeps.{IsLedger, Keeps, others-IsLedger, accept_each-Keeps}

-- What is to hold of the loop.
abbrev pub LoopKeeps : Loop → Type 0
LoopKeeps (ended s) = IsLedger s []
LoopKeeps (in_loop s) = IsLedger s []
LoopKeeps (in_submit s) = Keeps (waiting s)

LoopKeeps-if : (b : Bool) (x y : Loop) → LoopKeeps x → LoopKeeps y → LoopKeeps (if b then x else y)
LoopKeeps-if true x y l l' = l
LoopKeeps-if false x y l l' = l'

LoopKeeps-bind :
    (p : Progress) (k : Serving → Loop)
    → Keeps p
    → ((s : Serving) → IsLedger s [] → LoopKeeps (k s))
    → LoopKeeps (elim p [ waiting s ↦ in_submit s | onward s ↦ k s ])
LoopKeeps-bind (waiting s) k l next = l
LoopKeeps-bind (onward s) k l next = next s l

LoopKeeps-poll :
    (p : Poll) (s : Serving) (k : Serving → Loop)
    → IsLedger s []
    → ((s' : Serving) → IsLedger s' [] → LoopKeeps (k s'))
    → LoopKeeps (elim p [
      | poll_failed ↦ ended s
      | poll_idle ↦ k s
      | poll_ready as' ↦ elim (accept_each 0 as' s) [ waiting s' ↦ in_submit s' | onward s' ↦ k s' ]
    ])
LoopKeeps-poll poll_failed s k l next = l
LoopKeeps-poll poll_idle s k l next = next s l
LoopKeeps-poll (poll_ready as') s k l next =
    LoopKeeps-bind (accept_each 0 as' s) k (accept_each-Keeps 0 as' s l) next

pub serve-LoopKeeps : (rs : List PollRound) (s : Serving) → IsLedger s [] → LoopKeeps (serve rs s)
unfolding serve
serve-LoopKeeps [] s l = l
serve-LoopKeeps (r ∷ rs) s l =
    let s' = others s r.before in
    let l' = others-IsLedger s r.before [] l in
    LoopKeeps-if s'.stop_flag (ended s') _ l'
      (LoopKeeps-poll r.poll s' (serve rs) l' (serve-LoopKeeps rs))

-- A server that has just been created, with its pool.
abbrev pub new_serving : ThreadPool → Serving
new_serving pool = record { system = new_system pool; stop_flag = false; seen = []; closed = [] }

-- Every connection that was accepted has been taken by a worker, or is pending in the queue, or was
-- closed, in this order; none was closed while the pool was not shutting down.
abbrev pub Accounted : Serving → List Conn → Type 0
Accounted s more =
    (s.seen ≡ ((s.system.taken ++ pending s.system.pool) ++ s.closed) ++ more)
    × ((s.closed ≡ []) ⊎ (s.system.pool.shutting_down ≡ true))

-- While the loop waits in a submission, the connection on its way is one more.
abbrev pub LoopAccounted : Loop → Type 0
LoopAccounted (ended s) = Accounted s []
LoopAccounted (in_loop s) = Accounted s []
LoopAccounted (in_submit s) =
    (conn : Conn) × Accounted s (conn ∷ []) × (s.system.pool.shutting_down ≡ false)

IsLedger-Accounted : (s : Serving) (more : List Conn) → IsLedger s more → Accounted s more
IsLedger-Accounted s more l = (l.account ∙ ap (λ cs. (cs ++ s.closed) ++ more) l.pool.kept, l.shut)

LoopKeeps-Accounted : (o : Loop) → LoopKeeps o → LoopAccounted o
LoopKeeps-Accounted (ended s) l = IsLedger-Accounted s [] l
LoopKeeps-Accounted (in_loop s) l = IsLedger-Accounted s [] l
LoopKeeps-Accounted (in_submit s) (conn, l, open_) =
    (conn, IsLedger-Accounted s (conn ∷ []) l, open_)

pub new_serving-IsLedger :
    (n cap : ℕ) (server allocated : Bool) (pool : ThreadPool)
    → thread_pool_init n cap server allocated ≡ some pool
    → IsLedger (new_serving pool) []
new_serving-IsLedger n cap server allocated pool e = record {
  pool = new_system-IsPool n cap server allocated pool e;
  account = refl;
  shut = inl refl;
}

-- From a server with a pool that was created, over any rounds of the loop and any turns of the workers and of
-- whoever stops the server: the connections that were accepted are, in the order in which they came, those that a worker has taken, those
-- that are pending, those that the loop closed, and the one that it waits to submit, if it does; it
-- closes one only once the pool is shutting down, and waits only while it is not.
pub server_run-Accounted :
    (n cap : ℕ) (server allocated : Bool) (pool : ThreadPool) (can_poll : Bool)
    (rounds : List PollRound)
    → thread_pool_init n cap server allocated ≡ some pool
    → LoopAccounted (server_run can_poll rounds (new_serving pool)).1
unfolding server_run
server_run-Accounted n cap server allocated pool true rounds e =
    LoopKeeps-Accounted (serve rounds (new_serving pool)) (
      serve-LoopKeeps rounds (new_serving pool)
        (new_serving-IsLedger n cap server allocated pool e))
server_run-Accounted n cap server allocated pool false rounds e =
    LoopKeeps-Accounted (ended (new_serving pool))
      (new_serving-IsLedger n cap server allocated pool e)
