-- ===== src/Server/Accept/Drained.antt =====
-- api/server.c: the loop and then the destruction of the pool.
use pyoneer.Prelude.{ℕ, ◌+◌, ◌≡◌, ◌∙◌, sym, ap, Bool, true, List, [], ◌++◌, some, replicate}
use mathlib.Core.Path.{subst}
use mathlib.Core.List.{append-nil}
use pyoneer.Pool.{ThreadPool, thread_pool_init}
use pyoneer.Pool.Turns.{System, Turn, work, thread_pool_destroy}
use pyoneer.Pool.Destroy.{thread_pool_destroy-drains}
use pyoneer.Server.Accept.{Serving, PollRound, Loop, ended, serve, server_run}
use pyoneer.Server.Accept.Keeps.{IsLedger}
use pyoneer.Server.Accept.Ledger.{LoopKeeps, serve-LoopKeeps, new_serving, new_serving-IsLedger}

LoopKeeps-ended : (o : Loop) (s : Serving) → o ≡ ended s → LoopKeeps o → IsLedger s []
LoopKeeps-ended o s e l = subst LoopKeeps e l

-- `server_run` and then the destruction of the pool by `server_destroy`, as `main` calls them: once the loop of a server with a pool
-- that was created has ended, the destruction returns if the workers go on; and where it returns, every connection
-- that the loop accepted has been taken by a worker, or was closed by the loop, in this order.
pub server_run-drained :
    (n cap : ℕ) (server allocated : Bool) (pool : ThreadPool) (rounds : List PollRound)
    (s : Serving)
    → thread_pool_init n cap server allocated ≡ some pool
    → (server_run true rounds (new_serving pool)).1 ≡ ended s
    → ((ts : List Turn) × (t : System) × (thread_pool_destroy ts s.system ≡ some t))
      × ((ts : List Turn) (t : System)
          → thread_pool_destroy ts s.system ≡ some t
          → s.seen ≡ t.taken ++ s.closed)
unfolding server_run
server_run-drained n cap server allocated pool rounds s e h =
    let l : IsLedger s [] = LoopKeeps-ended (serve rounds (new_serving pool)) s h (
      serve-LoopKeeps rounds (new_serving pool)
        (new_serving-IsLedger n cap server allocated pool e)) in
    let (returns, drains) = thread_pool_destroy-drains s.system l.pool in
    (
      (replicate (s.system.pool.qlen + s.system.workers) work, returns.0, returns.1),
      λ ts t e'. l.account ∙ append-nil _ ∙ ap (λ cs. cs ++ s.closed) (sym (drains ts t e')),
    )
