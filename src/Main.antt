-- ===== src/Main.antt =====
-- src/main.c: the program from its arguments to its exit. The pieces that it creates are the site, the
-- logger, the pyoneer and the server; the log of what was created and freed is the model's.
pub mod Stages
pub mod Parts
pub mod Connections
pub mod Clean
pub mod Cleanup
pub mod Success
pub mod Unusable
mod Samples
use Prim.Native.String.{[], ◌∷◌}
use pyoneer.Prelude.{
  ℕ, String, Bool, true, false, not, ◌&&◌, ◌||◌, Option, none, some, List, [], ◌∷◌, ◌++◌,
  if◌then◌else◌,
}
use pyoneer.Prelude.Int.{pos}
use pyoneer.Memory.{Run, pure, fault, ◌>>=◌}
use pyoneer.Site.{Site, site_create}
use pyoneer.Logger.{Logger, logger_create}
use pyoneer.Engine.{Store}
use pyoneer.Pyoneer.{Role, pyoneer_worker, role_other, Pyoneer, pyoneer_create}
use pyoneer.Server.{
  ServerEndpoint, ep_unix, ep_tcp, Sys, set_fd, ServerConfig, Server, ServerAnswers, server_create,
  server_destroy,
}
use pyoneer.Server.Accept.{Serving, server_stop}
use pyoneer.Options.{AppConfig, parse_flags, default_config}

pub data Part : Type 0 where
  part_site part_logger part_pyoneer part_server : Part

-- What the globals and the locals of `main` hold, the system, the parts in the order in which they were
-- created, and which signals are handled; `connections` are the descriptors that the loop accepted, and
-- `handler_set` says that `SERVER` is set.
pub record Process : Type 0 where
  pub site : Option Site
  pub logger : Option Logger
  pub pyoneer : Option Pyoneer
  pub server : Option Server
  pub sys : Sys
  pub connections : List ℕ
  pub created : List Part
  pub handler_set : Bool

-- How `server_run` ends: it cannot allocate, or its loop ends since the server was stopped, or since
-- `poll` failed.
pub data RunEnd : Type 0 where
  no_room stopped poll_failed : RunEnd

-- What the system answers besides the allocations of the site and of the logger: the environment, what `pyoneer_create`
-- and `server_create` ask, the three calls of `sigaction`, how `server_run` goes, and the descriptors that
-- `accept` gives in it.
pub record ProgramAnswers : Type 0 where
  pub env : String → Option String
  pub pyoneer_allocated : Bool
  pub worker_allocated : Bool
  pub worker_inited : Bool
  pub jobs : Store
  pub server : ServerAnswers
  pub sigpipe : Bool
  pub sigint : Bool
  pub sigterm : Bool
  pub run : RunEnd
  pub accepted : List ℕ

-- `false` is the jump to `cleanup`.
abbrev pub Stage : Type 0
Stage = Process → Run (Bool × Process)

abbrev pub and_then : Run (Bool × Process) → Stage → Run (Bool × Process)
and_then m next = do (go_on, p) ← m; if go_on then next p else pure (false, p)

abbrev pub is_worker : Option Role → Bool
is_worker (some pyoneer_worker) = true
is_worker _ = false

abbrev pub add_site : Option Site → Process → Bool × Process
add_site none p = (false, p)
add_site (some site) p =
    (true, record p { site = some site; created = p.created ++ part_site ∷ [] })

-- A missing path is NULL for `site_create` as well.
unfoldable pub start_site : ProgramAnswers → AppConfig → Stage
start_site ans cfg p =
    if is_worker cfg.role
    then (do
      site ←
          site_create (ans.env "PYONEER_PYTHON") (ans.env "PYONEER_TASK_DIR")
            (ans.env "PYONEER_WORKING_DIR")
      pure (add_site site p))
    else pure (true, p)

abbrev pub add_logger : Option Logger → Process → Bool × Process
add_logger none p = (false, p)
add_logger (some logger) p =
    (true, record p { logger = some logger; created = p.created ++ part_logger ∷ [] })

unfoldable pub start_logger : AppConfig → Stage
start_logger cfg p = do logger ← logger_create cfg.level cfg.name; pure (add_logger logger p)

abbrev pub add_pyoneer : Option Pyoneer → Process → Bool × Process
add_pyoneer none p = (false, p)
add_pyoneer (some y) p =
    (true, record p { pyoneer = some y; created = p.created ++ part_pyoneer ∷ [] })

abbrev pub role_or_other : Option Role → Role
role_or_other none = role_other
role_or_other (some role) = role

unfoldable pub start_pyoneer : ProgramAnswers → AppConfig → Stage
start_pyoneer ans cfg p = pure (
    add_pyoneer
      (pyoneer_create (role_or_other cfg.role) cfg.id ans.pyoneer_allocated ans.worker_allocated
        ans.worker_inited ans.jobs)
      p)

abbrev pub tcp_endpoint : AppConfig → ServerEndpoint
tcp_endpoint cfg = record {
  type = ep_tcp;
  host = some cfg.tcp_host;
  port = some cfg.tcp_port;
  path = none;
  backlog = pos cfg.backlog;
}

abbrev pub unix_endpoint : AppConfig → String → ServerEndpoint
unix_endpoint cfg path = record {
  type = ep_unix;
  host = none;
  port = none;
  path = some path;
  backlog = pos cfg.backlog;
}

-- An empty path is no endpoint.
unfoldable pub unix_endpoints : AppConfig → Option String → List ServerEndpoint
unix_endpoints cfg none = []
unix_endpoints cfg (some []) = []
unix_endpoints cfg (some (c ∷ path)) = unix_endpoint cfg (c ∷ path) ∷ []

unfoldable pub server_config_of : AppConfig → String → ServerConfig
unfolding unix_endpoints
server_config_of cfg token = record {
  endpoints = some (tcp_endpoint cfg ∷ unix_endpoints cfg cfg.unix_path);
  token = some token;
  nworkers = cfg.nworkers;
  queue_capacity = cfg.queue_capacity;
}

abbrev pub add_server : Option Server × Sys → Process → Bool × Process
add_server (none, sys) p = (false, record p { sys = sys })
add_server (some s, sys) p =
    (true, record p { server = some s; sys = sys; created = p.created ++ part_server ∷ [] })

-- Undefined behaviour in the creation is a fault.
abbrev pub started_server : Option Server × Sys → Stage
started_server found p = if found.1.undefined then fault else pure (add_server found p)

-- A missing token is an error.
unfoldable pub start_with : ProgramAnswers → AppConfig → Option String → Stage
unfolding server_config_of
start_with ans cfg none p = pure (false, p)
start_with ans cfg (some token) p =
    started_server (server_create ans.server (server_config_of cfg token) p.sys) p

unfoldable pub start_server : ProgramAnswers → AppConfig → Stage
unfolding start_with
start_server ans cfg p = start_with ans cfg (ans.env "PYONEER_API_TOKEN") p

-- `policy_init` of a server that is there.
unfoldable pub policy_init : ProgramAnswers → Stage
policy_init ans p = pure (ans.sigpipe && ans.sigint && ans.sigterm, record p { handler_set = true })

-- The handler of SIGINT and SIGTERM.
unfoldable pub on_term : Bool → Serving → Serving
on_term handler_set s = if handler_set then server_stop s else s

-- Whether `server_run` returns 0, which it does after a `poll` that fails as well.
unfoldable pub run_code : RunEnd → Bool
run_code no_room = false
run_code stopped = true
run_code poll_failed = true

-- `accept` of each connection.
unfoldable pub open_accepted : List ℕ → Sys → Sys
open_accepted [] sys = sys
open_accepted (fd ∷ fds) sys = open_accepted fds (set_fd fd true sys)

-- What the loop of `server_run` leaves open: one that cannot start accepts nothing. Who closes a connection is not
-- in this model: see `close_accepted`.
unfoldable pub serve_connections : RunEnd → List ℕ → Process → Process
unfolding open_accepted
serve_connections no_room fds p = p
serve_connections stopped fds p = record p {
  sys = open_accepted fds p.sys;
  connections = p.connections ++ fds;
}
serve_connections poll_failed fds p = record p {
  sys = open_accepted fds p.sys;
  connections = p.connections ++ fds;
}

-- `server_run` as `main` calls it.
unfoldable pub run_server : ProgramAnswers → Stage
unfolding serve_connections run_code
run_server ans p = pure (run_code ans.run, serve_connections ans.run ans.accepted p)

-- `main` between the parser and the label `cleanup`.
unfoldable pub start_and_run : ProgramAnswers → AppConfig → Stage
unfolding start_site start_logger start_pyoneer start_server policy_init run_server
start_and_run ans cfg p =
    and_then
      (and_then
        (and_then
          (and_then (and_then (start_site ans cfg p) (start_logger cfg)) (start_pyoneer ans cfg))
          (start_server ans cfg))
        (policy_init ans))
      (run_server ans)

abbrev pub freed_if {ℓ} : {A : Type ℓ} → Option A → Part → List Part
freed_if none part = []
freed_if (some a) part = part ∷ []

-- What the program leaves: its exit code is 0 where it succeeds, the parts that `cleanup` freed in their
-- order, and the system.
pub record Exit : Type 0 where
  pub success : Bool
  pub process : Process
  pub freed : List Part
  pub sys : Sys

-- The connections are closed when `thread_pool_destroy` returns: a handler has closed each that a worker
-- took, and the loop each that the pool rejected.
unfoldable pub close_accepted : List ℕ → Sys → Sys
close_accepted [] sys = sys
close_accepted (fd ∷ fds) sys = close_accepted fds (set_fd fd false sys)

-- `server_destroy`, of a server that may be NULL.
unfoldable pub closed_by : Option Server → List ℕ → Sys → Sys
unfolding close_accepted
closed_by none fds sys = close_accepted fds sys
closed_by (some s) fds sys = server_destroy s (close_accepted fds sys)

unfoldable pub cleanup : Bool × Process → Exit
cleanup (success, p) = record {
  success = success;
  process = p;
  freed =
      freed_if p.server part_server
      ++ freed_if p.pyoneer part_pyoneer
      ++ freed_if p.logger part_logger
      ++ freed_if p.site part_site;
  sys = closed_by p.server p.connections p.sys;
}

abbrev pub new_process : Sys → Process
new_process sys = record {
  site = none;
  logger = none;
  pyoneer = none;
  server = none;
  sys = sys;
  connections = [];
  created = [];
  handler_set = false;
}

-- The return before anything is created.
abbrev pub refused : Sys → Exit
refused sys = record { success = false; process = new_process sys; freed = []; sys = sys }

unfoldable pub main_configured : ProgramAnswers → Option AppConfig → Sys → Run Exit
unfolding start_and_run cleanup
main_configured ans none sys = pure (refused sys)
main_configured ans (some cfg) sys = do
  result ← start_and_run ans cfg (new_process sys)
  pure (cleanup result)

-- The arguments are those behind the name of the program.
unfoldable pub main : ProgramAnswers → List String → Sys → Run Exit
unfolding main_configured
main ans [] sys = pure (refused sys)
main ans (a ∷ argv) sys = main_configured ans (parse_flags (a ∷ argv) (default_config ans.env)) sys
