-- ===== src/Options/Sound.antt =====
-- src/main.c: what an accepted command line gives.
use Prim.Native.Char.{code}
use Prim.Native.String.{[], ◌∷◌}
use text.Mathlib.TextEquality.{Char-path}
use mathlib.Core.Bool.{true≢false}
use mathlib.Core.Path.{subst}
use mathlib.Core.Option
use pyoneer.Prelude.{
  Bool-cases, eq_iff, ◌==◌, ◌≡◌, ◌≢◌, ◌⊎◌, inl, inr, refl, sym, ap, ◌∙◌, String, Bool, true, false,
  Option, none, some, List, [], ◌∷◌, arith, Option-cases, str_eq, if◌then◌else◌,
}
use pyoneer.Prelude.Int.{pos, IsInt, ==ℤ_iff, to_int-IsInt}
use pyoneer.Pyoneer.{pyoneer_worker, pyoneer_manager}
use pyoneer.Prelude.Texts.{◌^^◌}
use pyoneer.Options.{
  AppConfig, starts_with, after_prefix, strtol, int_of_text, parse_role, parse_named, parse_flag,
  parse_loop, parse_flags, check_required, default_config,
}

-- A text that starts with a prefix is the prefix and what is behind it.
starts_with-split :
    (s prefix : String) → starts_with s prefix ≡ true → s ≡ prefix ^^ after_prefix s prefix
unfolding starts_with after_prefix
starts_with-split s [] h = refl
starts_with-split [] (p ∷ prefix) h = absurd (true≢false (sym h))
starts_with-split (c ∷ s) (p ∷ prefix) h = elim (Bool-cases (code c == code p)) [
  | inl e ↦
      rw (Char-path c p (ground (arith, e)))
        (ap (λ t. p ∷ t) (starts_with-split s prefix (ground (arith, h, e))))
  | inr e ↦ absurd (ground (arith, h, e))
]

-- The grammar of an argument: `--debug`, one of the two roles, or one of the other names with any value.
pub data IsFlag (a : String) : Type 0 where
  debug : a ≡ "--debug" → IsFlag a
  role : (a ≡ "--role=worker") ⊎ (a ≡ "--role=manager") → IsFlag a
  id : (v : String) → a ≡ "--id=" ^^ v → IsFlag a
  host : (v : String) → a ≡ "--host=" ^^ v → IsFlag a
  port : (v : String) → a ≡ "--port=" ^^ v → IsFlag a
  unix : (v : String) → a ≡ "--unix=" ^^ v → IsFlag a

abbrev pub AllFlags : List String → Type 0
AllFlags [] = Unit
AllFlags (a ∷ argv) = IsFlag a × AllFlags argv

-- What the flags keep of a configuration.
pub record IsConfig (cfg : AppConfig) : Type 0 where
  pub id_fits : IsInt cfg.id
  pub named :
      (cfg.role ≡ none) ⊎ (cfg.role ≡ some pyoneer_worker) ⊎ (cfg.role ≡ some pyoneer_manager)
  pub queue : (cfg.queue_capacity ≡ 128) × (cfg.nworkers ≡ 8) × (cfg.backlog ≡ 256)

int_of_text-IsInt : (s : String) → IsInt (int_of_text s)
unfolding int_of_text
int_of_text-IsInt s = to_int-IsInt (strtol s)

-- The argument is a flag and the configuration stays well formed, if there is a result.
abbrev Accepts : String → Option AppConfig → Type 0
Accepts a none = Unit
Accepts a (some cfg) = IsFlag a × IsConfig cfg

Accepts-if :
    (a : String) (b : Bool) (x y : Option AppConfig)
    → (b ≡ true → Accepts a x)
    → (b ≡ false → Accepts a y)
    → Accepts a (if b then x else y)
Accepts-if a true x y f g = f refl
Accepts-if a false x y f g = g refl

-- An argument is its dashes, a name and the value behind it.
spelled :
    (a prefix : String)
    → starts_with a "--" ≡ true
    → starts_with (after_prefix a "--") prefix ≡ true
    → a ≡ "--" ^^ prefix ^^ after_prefix (after_prefix a "--") prefix
spelled a prefix h h' =
    starts_with-split a "--" h
    ∙ ap (λ t. "--" ^^ t) (starts_with-split (after_prefix a "--") prefix h')

module _ (a : String) (cfg : AppConfig) (dashes : starts_with a "--" ≡ true)
    (c : IsConfig cfg) where
  abbrev rest : String
  rest = after_prefix a "--"

  exact : (t : String) → str_eq rest t ≡ true → a ≡ "--" ^^ t
  exact t h = starts_with-split a "--" dashes ∙ ap (λ u. "--" ^^ u) ((eq_iff rest t).0 h)

  role_is :
      (v : String)
      → starts_with rest "role=" ≡ true
      → str_eq (after_prefix rest "role=") v ≡ true
      → a ≡ "--role=" ^^ v
  role_is v h e =
      spelled a "role=" dashes h
      ∙ ap (λ u. "--role=" ^^ u) ((eq_iff (after_prefix rest "role=") v).0 e)

  parse_role-Accepts :
      starts_with rest "role=" ≡ true → Accepts a (parse_role (after_prefix rest "role=") cfg)
  unfolding parse_role
  parse_role-Accepts h =
      Accepts-if a (str_eq (after_prefix rest "role=") "manager") _ _
        (λ e. (
          role (inr (role_is "manager" h e)),
          record { id_fits = c.id_fits; named = inr (inr refl); queue = c.queue },
        ))
        λ _.
          Accepts-if a (str_eq (after_prefix rest "role=") "worker") _ _
            (λ e. (
              role (inl (role_is "worker" h e)),
              record { id_fits = c.id_fits; named = inr (inl refl); queue = c.queue },
            ))
            λ _. tt

  parse_named-Accepts : Accepts a (parse_named rest cfg)
  unfolding parse_named
  parse_named-Accepts =
      Accepts-if a (str_eq rest "debug") _ _
        (λ e. (
          debug (exact "debug" e),
          record { id_fits = c.id_fits; named = c.named; queue = c.queue },
        ))
        λ _.
          Accepts-if a (starts_with rest "id=") _ _
            (λ e. (
              id (after_prefix rest "id=") (spelled a "id=" dashes e),
              record {
                id_fits = int_of_text-IsInt (after_prefix rest "id=");
                named = c.named;
                queue = c.queue;
              },
            ))
            λ _.
              Accepts-if a (starts_with rest "port=") _ _
                (λ e. (
                  port (after_prefix rest "port=") (spelled a "port=" dashes e),
                  record { id_fits = c.id_fits; named = c.named; queue = c.queue },
                ))
                λ _.
                  Accepts-if a (starts_with rest "host=") _ _
                    (λ e. (
                      host (after_prefix rest "host=") (spelled a "host=" dashes e),
                      record { id_fits = c.id_fits; named = c.named; queue = c.queue },
                    ))
                    λ _.
                      Accepts-if a (starts_with rest "unix=") _ _
                        (λ e. (
                          unix (after_prefix rest "unix=") (spelled a "unix=" dashes e),
                          record { id_fits = c.id_fits; named = c.named; queue = c.queue },
                        ))
                        λ _. Accepts-if a (starts_with rest "role=") _ _ parse_role-Accepts λ _. tt

parse_flag-Accepts : (a : String) (cfg : AppConfig) → IsConfig cfg → Accepts a (parse_flag a cfg)
unfolding parse_flag
parse_flag-Accepts a cfg c =
    Accepts-if a (starts_with a "--") _ _ (λ h. parse_named-Accepts a cfg h c) λ _. tt

parse_loop_sound :
    (argv : List String) (cfg cfg' : AppConfig)
    → IsConfig cfg
    → parse_loop argv cfg ≡ some cfg'
    → AllFlags argv × IsConfig cfg'
unfolding parse_loop
parse_loop_sound [] cfg cfg' c e = (tt, subst IsConfig (Option.some-injective cfg cfg' e) c)
parse_loop_sound (a ∷ argv) cfg cfg' c e = elim (Option-cases (parse_flag a cfg)) [
  | inl x ↦ absurd (ground (arith, x, e))
  | inr (next, x) ↦
      let (flag, c') = subst (Accepts a) x (parse_flag-Accepts a cfg c) in
      let (flags, c'') = parse_loop_sound argv next cfg' c' (ground (arith, x, e)) in
      ((flag, flags), c'')
]

default_config-IsConfig : (env : String → Option String) → IsConfig (default_config env)
unfolding default_config
default_config-IsConfig env = record {
  id_fits = omega arith;
  named = inl refl;
  queue = (refl, refl, refl);
}

check_required_sound :
    (cfg cfg' : AppConfig)
    → check_required cfg ≡ some cfg'
    → (cfg' ≡ cfg) × (cfg.role ≢ none) × (cfg.id ≢ pos 0)
unfolding check_required
check_required_sound cfg cfg' e = ground (arith, ==ℤ_iff cfg.id (pos 0), e)

-- A command line that is accepted consists of flags of the grammar only; the configuration has the role of a
-- worker or of a manager, an id that is not 0 and fits an `int`, and the sizes of the queue, the pool and the backlog that
-- `main` gave.
pub parse_flags_sound :
    (argv : List String) (env : String → Option String) (cfg : AppConfig)
    → parse_flags argv (default_config env) ≡ some cfg
    → AllFlags argv × IsConfig cfg × (cfg.role ≢ none) × (cfg.id ≢ pos 0)
unfolding parse_flags
parse_flags_sound argv env cfg e = elim (Option-cases (parse_loop argv (default_config env))) [
  | inl x ↦ absurd (ground (arith, x, e))
  | inr (last, x) ↦
      let (flags, c) =
        parse_loop_sound argv (default_config env) last (default_config-IsConfig env) x in
      let (same, has_role, has_id) = check_required_sound last cfg (ground (arith, x, e)) in
      (flags, subst IsConfig (sym same) c, rw same has_role, rw same has_id)
]
