-- ===== src/Main/Stages.antt =====
-- src/main.c: the stages of the program in a row.
use pyoneer.Prelude.{◌≡◌, refl, sym, Bool, true, false, if◌then◌else◌}
use mathlib.Core.Bool.{true≢false}
use pyoneer.Memory.{Run, Supply, pure, Ends, Ends-bind}
use pyoneer.Main.{Process, Stage, and_then}

-- A stage keeps what holds of the process, and where it goes on, something more holds of it.
abbrev pub After : (Process → Type 0) → (Process → Type 0) → Bool × Process → Type 0
After K Q r = K r.1 × (r.0 ≡ true → Q r.1)

pub stage_fails : (K Q : Process → Type 0) (p : Process) → K p → After K Q (false, p)
stage_fails K Q p c = (c, λ e. absurd (true≢false (sym e)))

pub and_then-After :
    (K Q Q' : Process → Type 0) (m : Run (Bool × Process)) (next : Stage) (s : Supply)
    → Ends (After K Q) (m s)
    → ((p : Process) (s' : Supply) → K p → Q p → Ends (After K Q') (next p s'))
    → Ends (After K Q') (and_then m next s)
and_then-After K Q Q' m next s ends then_ =
    Ends-bind (After K Q') (After K Q) m (λ r. if r.0 then next r.1 else pure (false, r.1)) s ends
      go
  where
    go :
        (r : Bool × Process) (s' : Supply)
        → After K Q r
        → Ends (After K Q') ((if r.0 then next r.1 else pure (false, r.1)) s')
    go (true, p) s' (c, q) = then_ p s' c (q refl)
    go (false, p) s' (c, q) = stage_fails K Q' p c
