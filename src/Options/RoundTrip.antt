-- ===== src/Options/RoundTrip.antt =====
-- src/main.c: a configuration that is written as flags is parsed back.
mod Samples
use Prim.Native.String
use Prim.Native.String.{String, [], ◌∷◌}
use pyoneer.Prelude.{
  ℕ, ◌≡◌, ◌≢◌, inl, inr, Bool-cases, eq_iff, refl, sym, ap, ◌∙◌, Bool, true, false, Option, none,
  some, List, [], ◌∷◌, arith, str_eq, if◌then◌else◌,
}
use mathlib.Core.Bool.{true≢false}
use pyoneer.Prelude.Int.{ℤ, pos, negsuc, IsInt, ◌==ℤ◌, ==ℤ_iff}
use pyoneer.Pyoneer.{Role, pyoneer_worker, pyoneer_manager}
use pyoneer.Logger.{logger_debug}
use pyoneer.Options.{
  AppConfig, starts_with, after_prefix, int_of_text, parse_role, parse_named, parse_flag,
  parse_loop, parse_flags, check_required, default_config,
}
use pyoneer.Prelude.Texts.{◌^^◌, print_int}
use pyoneer.Options.Decimal.{int_of_text-print_int}

-- The roles that have a flag.
pub data FlagRole : Type 0 where
  as_worker as_manager : FlagRole

abbrev pub role_of : FlagRole → Role
role_of as_worker = pyoneer_worker
role_of as_manager = pyoneer_manager

abbrev pub role_name : FlagRole → String
role_name as_worker = "worker"
role_name as_manager = "manager"

-- What flags can set.
pub record Flags : Type 0 where
  pub role : FlagRole
  pub id : ℤ
  pub host : String
  pub port : String
  pub path : String
  pub debug : Bool

abbrev pub debug_flag : Bool → List String
debug_flag true = "--debug" ∷ []
debug_flag false = []

abbrev pub flags_of : Flags → List String
flags_of f =
    ("--role=" ^^ role_name f.role)
    ∷ ("--id=" ^^ print_int f.id)
    ∷ ("--host=" ^^ f.host)
    ∷ ("--port=" ^^ f.port)
    ∷ ("--unix=" ^^ f.path)
    ∷ debug_flag f.debug

abbrev pub configured : Flags → AppConfig → AppConfig
configured f cfg = record cfg {
  id = f.id;
  role = some (role_of f.role);
  level = if f.debug then logger_debug else cfg.level;
  name = role_name f.role;
  tcp_host = f.host;
  tcp_port = f.port;
  unix_path = some f.path;
}

pub parse_flag-role :
    (r : FlagRole) (cfg : AppConfig)
    → parse_flag ("--role=" ^^ role_name r) cfg
      ≡ some (record cfg { role = some (role_of r); name = role_name r })
unfolding parse_flag
parse_flag-role as_worker cfg = refl
parse_flag-role as_manager cfg = refl

differ :
    (s t prefix : String)
    → starts_with s prefix ≡ true
    → starts_with t prefix ≡ false
    → str_eq s t ≡ false
differ s t prefix h h' = elim (Bool-cases (str_eq s t)) [
  | inl e ↦ absurd (true≢false (sym h ∙ ap (λ u. starts_with u prefix) ((eq_iff s t).0 e) ∙ h'))
  | inr e ↦ e
]

pub parse_flag-id :
    (v : String) (cfg : AppConfig)
    → parse_flag ("--id=" ^^ v) cfg ≡ some (record cfg { id = int_of_text v })
unfolding parse_flag
parse_flag-id v cfg = rw (differ ("id=" ^^ v) "debug" "i" refl refl) refl

pub parse_flag-host :
    (v : String) (cfg : AppConfig)
    → parse_flag ("--host=" ^^ v) cfg ≡ some (record cfg { tcp_host = v })
unfolding parse_flag
parse_flag-host v cfg = rw (differ ("host=" ^^ v) "debug" "h" refl refl) refl

pub parse_flag-port :
    (v : String) (cfg : AppConfig)
    → parse_flag ("--port=" ^^ v) cfg ≡ some (record cfg { tcp_port = v })
unfolding parse_flag
parse_flag-port v cfg = rw (differ ("port=" ^^ v) "debug" "p" refl refl) refl

pub parse_flag-unix :
    (v : String) (cfg : AppConfig)
    → parse_flag ("--unix=" ^^ v) cfg ≡ some (record cfg { unix_path = some v })
unfolding parse_flag
parse_flag-unix v cfg = rw (differ ("unix=" ^^ v) "debug" "u" refl refl) refl

-- The loop goes on with what a flag gives.
parse_loop-cons :
    (a : String) (argv : List String) (cfg cfg' : AppConfig)
    → parse_flag a cfg ≡ some cfg'
    → parse_loop (a ∷ argv) cfg ≡ parse_loop argv cfg'
unfolding parse_loop
parse_loop-cons a argv cfg cfg' e = ground (arith, e)

parse_loop-debug_flag :
    (debug : Bool) (cfg : AppConfig)
    → parse_loop (debug_flag debug) cfg
      ≡ some (record cfg { level = if debug then logger_debug else cfg.level })
unfolding parse_loop
parse_loop-debug_flag true cfg = refl
parse_loop-debug_flag false cfg = refl

parse_loop-flags_of :
    (f : Flags) (cfg : AppConfig)
    → IsInt f.id
    → parse_loop (flags_of f) cfg ≡ some (configured f cfg)
parse_loop-flags_of f cfg h =
    parse_loop-cons ("--role=" ^^ role_name f.role) _ cfg _ (parse_flag-role f.role cfg)
    ∙ parse_loop-cons ("--id=" ^^ print_int f.id) _ _ _ (parse_flag-id (print_int f.id) _)
    ∙ parse_loop-cons ("--host=" ^^ f.host) _ _ _ (parse_flag-host f.host _)
    ∙ parse_loop-cons ("--port=" ^^ f.port) _ _ _ (parse_flag-port f.port _)
    ∙ parse_loop-cons ("--unix=" ^^ f.path) _ _ _ (parse_flag-unix f.path _)
    ∙ parse_loop-debug_flag f.debug _
    ∙ ap (λ z. some (record (configured f cfg) { id = z })) (int_of_text-print_int f.id h)

parse_flags-loop :
    (argv : List String) (cfg cfg' : AppConfig)
    → parse_loop argv cfg ≡ some cfg'
    → parse_flags argv cfg ≡ check_required cfg'
unfolding parse_flags
parse_flags-loop argv cfg cfg' e = ground (arith, e)

check_required-configured :
    (f : Flags) (cfg : AppConfig)
    → f.id ≢ pos 0
    → check_required (configured f cfg) ≡ some (configured f cfg)
unfolding check_required
check_required-configured f cfg nonzero = ground (arith, ==ℤ_iff f.id (pos 0), nonzero)

-- Flags for a role, an id that fits an `int` and is not 0, any host, port and path, and `--debug` or not,
-- are accepted over any configuration, and the result has exactly these values in it.
pub parse_flags-flags_of :
    (f : Flags) (cfg : AppConfig)
    → IsInt f.id
    → f.id ≢ pos 0
    → parse_flags (flags_of f) cfg ≡ some (configured f cfg)
parse_flags-flags_of f cfg h nonzero =
    parse_flags-loop (flags_of f) cfg _ (parse_loop-flags_of f cfg h)
    ∙ check_required-configured f cfg nonzero
