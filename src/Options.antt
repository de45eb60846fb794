-- ===== src/Options.antt =====
-- src/main.c: the configuration of the program and the parser of its flags.
mod Text
pub mod Decimal
pub mod RoundTrip
pub mod Sound
pub mod Refusal
unfoldable pub use Text.*
use pyoneer.Prelude.{
  ℕ, String, Bool, true, false, Option, none, some, List, [], ◌∷◌, str_eq, if◌then◌else◌,
}
use pyoneer.Prelude.Int.{ℤ, pos, ◌==ℤ◌}
use pyoneer.Logger.{logger_debug, logger_info}
use pyoneer.Pyoneer.{Role, pyoneer_worker, pyoneer_manager}

-- `app_config`; no role is -1.
pub record AppConfig : Type 0 where
  pub id : ℤ
  pub role : Option Role
  pub level : ℕ
  pub name : String
  pub tcp_host : String
  pub tcp_port : String
  pub unix_path : Option String
  pub backlog : ℕ
  pub nworkers : ℕ
  pub queue_capacity : ℕ

-- `--role=` with its value
unfoldable pub parse_role : String → AppConfig → Option AppConfig
parse_role v cfg =
    if str_eq v "manager"
    then some (record cfg { role = some pyoneer_manager; name = "manager" })
    else if str_eq v "worker"
    then some (record cfg { role = some pyoneer_worker; name = "worker" })
    else none

-- A flag behind its dashes.
unfoldable pub parse_named : String → AppConfig → Option AppConfig
unfolding parse_role starts_with after_prefix int_of_text
parse_named a cfg =
    if str_eq a "debug"
    then some (record cfg { level = logger_debug })
    else if starts_with a "id="
    then some (record cfg { id = int_of_text (after_prefix a "id=") })
    else if starts_with a "port="
    then some (record cfg { tcp_port = after_prefix a "port=" })
    else if starts_with a "host="
    then some (record cfg { tcp_host = after_prefix a "host=" })
    else if starts_with a "unix="
    then some (record cfg { unix_path = some (after_prefix a "unix=") })
    else if starts_with a "role="
    then parse_role (after_prefix a "role=") cfg
    else none

-- One round of the loop.
unfoldable pub parse_flag : String → AppConfig → Option AppConfig
unfolding parse_named
parse_flag a cfg = if starts_with a "--" then parse_named (after_prefix a "--") cfg else none

unfoldable pub parse_loop : List String → AppConfig → Option AppConfig
unfolding parse_flag
parse_loop [] cfg = some cfg
parse_loop (a ∷ argv) cfg = elim (parse_flag a cfg) [
  | none ↦ none
  | some cfg' ↦ parse_loop argv cfg'
]

-- The checks behind the loop.
unfoldable pub check_required : AppConfig → Option AppConfig
check_required cfg = elim cfg.role [
  | none ↦ none
  | some role ↦ if cfg.id ==ℤ pos 0 then none else some cfg
]

-- The arguments are those behind the name of the program; `none` is -1.
unfoldable pub parse_flags : List String → AppConfig → Option AppConfig
unfolding parse_loop check_required
parse_flags argv cfg = elim (parse_loop argv cfg) [ none ↦ none | some cfg' ↦ check_required cfg' ]

unfoldable pub env_or_default : Option String → String → String
env_or_default none def = def
env_or_default (some v) def = v

-- The configuration that `main` starts from; the environment gives the port and the socket path.
unfoldable pub default_config : (String → Option String) → AppConfig
unfolding env_or_default
default_config env = record {
  id = pos 0;
  role = none;
  level = logger_info;
  name = "pyoneer";
  tcp_host = "0.0.0.0";
  tcp_port = env_or_default (env "PYONEER_PORT") "8080";
  unix_path = env "PYONEER_SOCKET_PATH";
  backlog = 256;
  nworkers = 8;
  queue_capacity = 128;
}
