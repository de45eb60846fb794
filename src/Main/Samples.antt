-- ===== src/Main/Samples.antt =====
-- src/main.c: a worker that serves, one whose id is 1, and a manager.
use pyoneer.Prelude.{
  ◌≡◌, refl, String, true, Option, none, some, List, [], ◌∷◌, str_eq, if◌then◌else◌,
}
use pyoneer.Memory.{Ends}
use pyoneer.Pyoneer.{pyoneer_create}
use pyoneer.Worker.{worker_create}
use pyoneer.Site.{site_create}
use pyoneer.Logger.{logger_create}
use pyoneer.Options.{parse_flags, default_config}
use pyoneer.Server.{
  server_create, create_with, init_listeners, open_listener, make_tcp_listener, create_pool,
}
use pyoneer.Pool.{thread_pool_init, start_workers}
use pyoneer.Server.Listeners.Samples as ServerSamples
use pyoneer.Main.{ProgramAnswers, stopped, main}
use pyoneer.Main.Success.{IsServed, main-IsServed}
use pyoneer.Main.Unusable.{FaultsIfUnusable, main-FaultsIfUnusable}

abbrev env : String → Option String
env key =
    if str_eq key "PYONEER_SOCKET_PATH"
    then none
    else if str_eq key "PYONEER_PORT"
    then some "80"
    else some "/srv"

abbrev program : ProgramAnswers
program = record {
  env = env;
  pyoneer_allocated = true;
  worker_allocated = true;
  worker_inited = true;
  jobs = λ a. none;
  server = ServerSamples.answers true;
  sigpipe = true;
  sigint = true;
  sigterm = true;
  run = stopped;
  accepted = 7 ∷ 8 ∷ [];
}

abbrev line : List String
line = "--role=worker" ∷ "--id=7" ∷ []

main-IsServed_example : Ends (IsServed program line) (main program line ServerSamples.sys [])
main-IsServed_example = main-IsServed program line ServerSamples.sys []

line-serves : Ends (λ e. e.success ≡ true) (main program line ServerSamples.sys [])
unfolding main parse_flags default_config site_create logger_create pyoneer_create worker_create
    server_create create_with init_listeners open_listener make_tcp_listener create_pool
    thread_pool_init start_workers
line-serves = refl

-- A manager.
abbrev manager_line : List String
manager_line = "--role=manager" ∷ "--id=7" ∷ []

main-FaultsIfUnusable_example :
    Ends (FaultsIfUnusable program manager_line) (main program manager_line ServerSamples.sys [])
main-FaultsIfUnusable_example = main-FaultsIfUnusable program manager_line ServerSamples.sys []

manager-serves : Ends (λ e. e.success ≡ true) (main program manager_line ServerSamples.sys [])
unfolding main parse_flags default_config site_create logger_create pyoneer_create worker_create
    server_create create_with init_listeners open_listener make_tcp_listener create_pool
    thread_pool_init start_workers
manager-serves = refl
