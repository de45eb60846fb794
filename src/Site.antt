-- ===== src/Site.antt =====
-- shared/site.c: the paths of the python environment, which the program reads once at its start.
use pyoneer.Prelude.{String, Bool, true, false, Option, none, some, if◌then◌else◌}
use pyoneer.Memory.{Run, pure, fault, malloc, ◌>>=◌}

-- `Site`
pub record Site : Type 0 where
  pub python : String
  pub task_dir : String
  pub working_dir : String

-- `strcpy` into what `malloc` gave, which is not tested.
abbrev pub strcpy : Bool → String → Run String
strcpy true s = pure s
strcpy false s = fault

-- The three copies: all allocations come before the first copy.
unfoldable pub copy_paths : String → String → String → Run Site
copy_paths python task_dir working_dir = do
  a ← malloc
  b ← malloc
  c ← malloc
  python' ← strcpy a python
  task_dir' ← strcpy b task_dir
  working_dir' ← strcpy c working_dir
  pure (record { python = python'; task_dir = task_dir'; working_dir = working_dir' })

unfoldable pub site_create : Option String → Option String → Option String → Run (Option Site)
unfolding copy_paths
site_create (some python) (some task_dir) (some working_dir) = do
  ok ← malloc
  if ok then (do site ← copy_paths python task_dir working_dir; pure (some site)) else pure none
site_create _ _ _ = pure none
