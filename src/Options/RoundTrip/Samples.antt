-- ===== src/Options/RoundTrip/Samples.antt =====
-- src/main.c: the flags of a worker.
use pyoneer.Prelude.{◌≡◌, refl, String, Option, none, some, List, [], ◌∷◌, true, arith}
use pyoneer.Prelude.Int.{pos, negsuc}
use pyoneer.Pyoneer.{pyoneer_worker}
use pyoneer.Options.{AppConfig, int_of_text, parse_flags, default_config}
use pyoneer.Options.RoundTrip.{Flags, as_worker, flags_of, configured, parse_flags-flags_of}
use pyoneer.Options.Refusal.{Verdict, parse_flags-Verdict}

abbrev flags : Flags
flags = record {
  role = as_worker;
  id = pos 7;
  host = "::1";
  port = "80";
  path = "/tmp/p";
  debug = true;
}

abbrev no_env : String → Option String
no_env _ = none

parse_flags-flags_of_example :
    parse_flags (flags_of flags) (default_config no_env)
    ≡ some (configured flags (default_config no_env))
parse_flags-flags_of_example = parse_flags-flags_of flags (default_config no_env) (omega arith) (cc)

abbrev line : List String
line = "--role=worker" ∷ "--id=4294967298" ∷ "--port=80" ∷ []

-- The id of the line does not fit an `int`: it wraps around to 2.
abbrev parsed_line : AppConfig
parsed_line = record {
  id = pos 2;
  role = some pyoneer_worker;
  level = 1;
  name = "worker";
  tcp_host = "0.0.0.0";
  tcp_port = "80";
  unix_path = none;
  backlog = 256;
  nworkers = 8;
  queue_capacity = 128;
}

line-parsed : parse_flags line (default_config no_env) ≡ some parsed_line
unfolding parse_flags default_config
line-parsed = refl

parse_flags-Verdict_example :
    Verdict line (default_config no_env) (parse_flags line (default_config no_env))
parse_flags-Verdict_example = parse_flags-Verdict line no_env

spaces : int_of_text " -42x" ≡ negsuc 41
unfolding int_of_text
spaces = refl
