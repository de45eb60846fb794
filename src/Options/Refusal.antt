-- ===== src/Options/Refusal.antt =====
-- src/main.c: which command lines are refused.
use pyoneer.Prelude.{
  ◌≡◌, ◌≢◌, ◌⊎◌, inl, inr, refl, String, Option, none, some, List, [], ◌∷◌, arith, Option-cases,
}
use pyoneer.Prelude.Int.{pos, ==ℤ_iff}
use pyoneer.Options.{AppConfig, parse_flag, parse_loop, check_required, parse_flags, default_config}
use pyoneer.Options.RoundTrip.{
  as_worker, as_manager, parse_flag-role, parse_flag-id, parse_flag-host, parse_flag-port,
  parse_flag-unix,
}
use pyoneer.Options.Sound.{
  IsFlag, debug, role, id, host, port, unix, AllFlags, IsConfig, parse_flags_sound,
}

-- A flag of the grammar is taken.
abbrev IsTaken : String → AppConfig → Type 0
IsTaken a cfg = (cfg' : AppConfig) × (parse_flag a cfg ≡ some cfg')

debug-IsTaken : (cfg : AppConfig) → IsTaken "--debug" cfg
unfolding parse_flag
debug-IsTaken cfg = (_, refl)

IsFlag-IsTaken : (a : String) (cfg : AppConfig) → IsFlag a → IsTaken a cfg
IsFlag-IsTaken a cfg (debug e) = rw e (debug-IsTaken cfg)
IsFlag-IsTaken a cfg (role (inl e)) = rw e (_, parse_flag-role as_worker cfg)
IsFlag-IsTaken a cfg (role (inr e)) = rw e (_, parse_flag-role as_manager cfg)
IsFlag-IsTaken a cfg (id v e) = rw e (_, parse_flag-id v cfg)
IsFlag-IsTaken a cfg (host v e) = rw e (_, parse_flag-host v cfg)
IsFlag-IsTaken a cfg (port v e) = rw e (_, parse_flag-port v cfg)
IsFlag-IsTaken a cfg (unix v e) = rw e (_, parse_flag-unix v cfg)

parse_loop-refused :
    (argv : List String) (cfg : AppConfig) → parse_loop argv cfg ≡ none → ¬ AllFlags argv
unfolding parse_loop
parse_loop-refused [] cfg h = absurd (ground (arith, h))
parse_loop-refused (a ∷ argv) cfg h = λ (flag, flags).
    let (cfg', taken) = IsFlag-IsTaken a cfg flag in
    parse_loop-refused argv cfg' (ground (arith, h, taken)) flags

-- Flags of the grammar that leave out what is required.
abbrev pub IsIncomplete : List String → AppConfig → Type 0
IsIncomplete argv cfg =
    (last : AppConfig) × (parse_loop argv cfg ≡ some last)
    × ((last.role ≡ none) ⊎ (last.id ≡ pos 0))

check_required-refused :
    (cfg : AppConfig) → check_required cfg ≡ none → (cfg.role ≡ none) ⊎ (cfg.id ≡ pos 0)
unfolding check_required
check_required-refused cfg h = ground (arith, h, ==ℤ_iff cfg.id (pos 0))

refused-cases :
    (argv : List String) (cfg : AppConfig)
    → parse_flags argv cfg ≡ none
    → (¬ AllFlags argv) ⊎ IsIncomplete argv cfg
unfolding parse_flags
refused-cases argv cfg h = elim (Option-cases (parse_loop argv cfg)) [
  | inl e ↦ inl (parse_loop-refused argv cfg e)
  | inr (last, e) ↦ inr (last, e, check_required-refused last (ground (arith, h, e)))
]

-- What the outcome of `parse_flags` says of the command line.
unfoldable pub Verdict : List String → AppConfig → Option AppConfig → Type 0
Verdict argv _ (some cfg) = AllFlags argv × IsConfig cfg × (cfg.role ≢ none) × (cfg.id ≢ pos 0)
Verdict argv start none = (¬ AllFlags argv) ⊎ IsIncomplete argv start

-- A command line that is accepted consists of flags of the grammar only, and its configuration has the
-- role of a worker or of a manager, an id that is not 0 and fits an `int`, and the sizes that `main` gave;
-- one that is refused has an argument that is no flag of the grammar, or its flags leave the role unset or the id 0.
pub parse_flags-Verdict :
    (argv : List String) (env : String → Option String)
    → Verdict argv (default_config env) (parse_flags argv (default_config env))
unfolding Verdict
parse_flags-Verdict argv env = elim (Option-cases (parse_flags argv (default_config env))) [
  | inl e ↦ rw e (refused-cases argv (default_config env) e)
  | inr (cfg, e) ↦ rw e (parse_flags_sound argv env cfg e)
]
