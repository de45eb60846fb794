-- ===== src/Main/Success.antt =====
-- src/main.c: what a program that ends in success has done.
use pyoneer.Prelude.{
  ◌≡◌, refl, sym, ap, ◌∙◌, String, Bool, true, Bool-cases, Option, none, some, List, [], ◌∷◌, arith,
  inl, inr, if◌then◌else◌,
}
use mathlib.Core.Bool.{true≢false}
use pyoneer.Memory.{Run, Supply, pure, Ends, Ends-bind}
use pyoneer.Pyoneer.{Pyoneer, pyoneer_create}
use pyoneer.Server.{Sys, Server, server_create}
use pyoneer.Server.Listeners.{AllListening, created_server_listens, server_create-token}
use pyoneer.Options.{AppConfig, parse_flags, default_config}
use pyoneer.Main.Stages.{After, stage_fails, and_then-After}
use pyoneer.Main.{
  Process, ProgramAnswers, start_site, start_logger, add_pyoneer, start_pyoneer, role_or_other,
  tcp_endpoint, unix_endpoints, server_config_of, add_server, start_with, start_server, policy_init,
  RunEnd, no_room, stopped, poll_failed, run_code, run_server, serve_connections, and_then,
  start_and_run, Exit, cleanup, new_process, main_configured, main,
}

-- Nothing is claimed of a result.
anything : (r : Option ((Bool × Process) × Supply)) → Ends (After (λ _. Unit) λ _. Unit) r
anything none = tt
anything (some (r, s)) = (tt, λ _. tt)

abbrev Anything : Process → Type 0
Anything _ = Unit

module _ (ans : ProgramAnswers) (cfg : AppConfig) where
  -- The pyoneer of the configuration.
  abbrev HasPyoneer : Process → Type 0
  HasPyoneer p =
      (y : Pyoneer) × (p.pyoneer ≡ some y)
      × (pyoneer_create (role_or_other cfg.role) cfg.id ans.pyoneer_allocated ans.worker_allocated
            ans.worker_inited ans.jobs
          ≡ some y)

  -- And a server that listens on the endpoints of the configuration, with the token of the environment.
  abbrev pub HasServer : Process → Type 0
  HasServer p =
      HasPyoneer p
      × ((s : Server) × (p.server ≡ some s)
          × AllListening ans.server.net 0 (tcp_endpoint cfg ∷ unix_endpoints cfg cfg.unix_path)
              s.listeners
          × (s.token ≡ (if ans.server.copied then ans.env "PYONEER_API_TOKEN" else none)))

  -- And its signals are handled, and `server_run` has returned 0.
  abbrev pub HasServed : Process → Type 0
  HasServed p =
      HasServer p
      × (p.handler_set ≡ true)
      × (ans.sigpipe ≡ true)
      × (ans.sigint ≡ true)
      × (ans.sigterm ≡ true)
      × (run_code ans.run ≡ true)

  start_pyoneer-After :
      (p : Process) (s : Supply) → Ends (After Anything HasPyoneer) (start_pyoneer ans cfg p s)
  unfolding start_pyoneer
  start_pyoneer-After p s =
      go
        (pyoneer_create (role_or_other cfg.role) cfg.id ans.pyoneer_allocated ans.worker_allocated
          ans.worker_inited ans.jobs)
        refl
    where
      go :
          (y : Option Pyoneer)
          → pyoneer_create
              (role_or_other cfg.role)
              cfg.id
              ans.pyoneer_allocated
              ans.worker_allocated
              ans.worker_inited
              ans.jobs
            ≡ y
          → After Anything HasPyoneer (add_pyoneer y p)
      go none e = stage_fails Anything HasPyoneer p tt
      go (some y) e = (tt, λ _. (y, refl, e))

  add_server-HasServer :
      (token : String) (p : Process) (found : Option Server × Sys)
      → ans.env "PYONEER_API_TOKEN" ≡ some token
      → server_create ans.server (server_config_of cfg token) p.sys ≡ found
      → HasPyoneer p
      → After Anything HasServer (add_server found p)
  unfolding server_config_of
  add_server-HasServer token p (none, sys) t e y = (tt, λ e'. absurd (true≢false (sym e')))
  add_server-HasServer token p (some v, sys) t e y = (
    tt,
    λ _. (
      y,
      (
        v,
        refl,
        created_server_listens ans.server (server_config_of cfg token) p.sys sys v _ refl e,
        server_create-token ans.server (server_config_of cfg token) p.sys sys v _ refl e
            ∙ ap (λ o. if ans.server.copied then o else none) (sym t),
      ),
    ),
  )

  start_with-After :
      (token : Option String) (p : Process) (s : Supply)
      → ans.env "PYONEER_API_TOKEN" ≡ token
      → HasPyoneer p
      → Ends (After Anything HasServer) (start_with ans cfg token p s)
  unfolding start_with server_create
  start_with-After none p s t y = stage_fails Anything HasServer p tt
  start_with-After (some token) p s t y =
      elim (Bool-cases (server_create ans.server (server_config_of cfg token) p.sys).1.undefined) [
        | inl e ↦ rw e tt
        | inr e ↦ rw e (add_server-HasServer token p _ t refl y)
      ]

  start_server-After :
      (p : Process) (s : Supply)
      → HasPyoneer p
      → Ends (After Anything HasServer) (start_server ans cfg p s)
  unfolding start_server
  start_server-After p s y = start_with-After (ans.env "PYONEER_API_TOKEN") p s refl y

  abbrev IsReady : Process → Type 0
  IsReady p =
      HasServer p
      × (p.handler_set ≡ true)
      × (ans.sigpipe ≡ true)
      × (ans.sigint ≡ true)
      × (ans.sigterm ≡ true)

  policy_init-After :
      (p : Process) (s : Supply) → HasServer p → Ends (After Anything IsReady) (policy_init ans p s)
  unfolding policy_init
  policy_init-After p s v =
      (tt, λ e. (v, refl, ground (arith, e), ground (arith, e), ground (arith, e)))

  -- The loop leaves the server and the signals.
  run_server-After :
      (p : Process) (s : Supply) → IsReady p → Ends (After Anything HasServed) (run_server ans p s)
  unfolding run_server serve_connections
  run_server-After p s (v, h, a, b, c) = (tt, λ e. served ans.run e)
    where
      served :
          (end : RunEnd)
          → run_code ans.run ≡ true
          → HasServed (serve_connections end ans.accepted p)
      served no_room e = (v, h, a, b, c, e)
      served stopped e = (v, h, a, b, c, e)
      served poll_failed e = (v, h, a, b, c, e)

  start_and_run-After :
      (p : Process) (s : Supply) → Ends (After Anything HasServed) (start_and_run ans cfg p s)
  unfolding start_and_run
  start_and_run-After p s =
      let logged : Run (Bool × Process) = and_then (start_site ans cfg p) (start_logger cfg) in
      let made : Run (Bool × Process) = and_then logged (start_pyoneer ans cfg) in
      let served : Run (Bool × Process) = and_then made (start_server ans cfg) in
      let ready : Run (Bool × Process) = and_then served (policy_init ans) in
      and_then-After Anything IsReady HasServed ready (run_server ans) s
        (and_then-After Anything HasServer IsReady served (policy_init ans) s
          (and_then-After Anything HasPyoneer HasServer made (start_server ans cfg) s
            (and_then-After Anything Anything HasPyoneer logged (start_pyoneer ans cfg) s
              (and_then-After Anything Anything Anything (start_site ans cfg p) (start_logger cfg) s
                (anything (start_site ans cfg p s)) λ p' s' _ _. anything (start_logger cfg p' s'))
              λ p' s' _ _. start_pyoneer-After p' s')
            λ p' s' _ y. start_server-After p' s' y)
          λ p' s' _ v. policy_init-After p' s' v)
        λ p' s' _ ready_. run_server-After p' s' ready_

-- What a successful exit says.
abbrev pub IsServed : ProgramAnswers → List String → Exit → Type 0
IsServed ans argv e =
    e.success ≡ true
    → (cfg : AppConfig) × (parse_flags argv (default_config ans.env) ≡ some cfg)
      × HasServed ans cfg e.process

cleanup-process : (r : Bool × Process) → ((cleanup r).success ≡ r.0) × ((cleanup r).process ≡ r.1)
unfolding cleanup
cleanup-process (b, p) = (refl, refl)

main_configured-IsServed :
    (ans : ProgramAnswers) (argv : List String) (cfg : Option AppConfig) (sys : Sys) (s : Supply)
    → parse_flags argv (default_config ans.env) ≡ cfg
    → Ends (IsServed ans argv) (main_configured ans cfg sys s)
unfolding main_configured
main_configured-IsServed ans argv none sys s x = λ e. absurd (true≢false (sym e))
main_configured-IsServed ans argv (some cfg) sys s x =
    Ends-bind (IsServed ans argv) (After Anything (HasServed ans cfg))
      (start_and_run ans cfg (new_process sys)) (λ r. pure (cleanup r)) s
      (start_and_run-After ans cfg (new_process sys) s) λ (b, p) s' after e. (cfg, x, after.1 e)

-- Where the program ends in success, its command line was accepted; it had created the pyoneer of the configuration; a server
-- of it had a listener for each endpoint of the configuration, TCP and, where a path is given, the socket file, with a descriptor for which
-- `socket`, `bind` and `listen` had succeeded, at one of the addresses that were found for the first and at the path for the second;
-- the token of the server was that of the environment, if it could be copied, and no token otherwise; and the three signals were set up before
-- `server_run` returned 0, as it does when its loop ends since the server was stopped, but also when a `poll` fails.
pub main-IsServed :
    (ans : ProgramAnswers) (argv : List String) (sys : Sys) (s : Supply)
    → Ends (IsServed ans argv) (main ans argv sys s)
unfolding main
main-IsServed ans [] sys s = λ e. absurd (true≢false (sym e))
main-IsServed ans (a ∷ argv) sys s = main_configured-IsServed ans (a ∷ argv) _ sys s refl
