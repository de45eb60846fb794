-- ===== src/Main/Unusable.antt =====
-- src/main.c with pyoneer/pyoneer.c: command lines that are accepted and give a server that cannot serve.
use pyoneer.Prelude.{List, String, ℕ, ◌≡◌, refl, Bool, true, ◌⊎◌, inl, inr, none, some, arith}
use pyoneer.Prelude.Int.{ℤ, pos, le_zero}
use pyoneer.Memory.{Supply, Ends, Ends-map}
use pyoneer.Server.{Sys}
use pyoneer.Options.{AppConfig, parse_flags, default_config}
use pyoneer.Main.{ProgramAnswers, Exit, role_or_other, main}
use pyoneer.Main.Success.{IsServed, main-IsServed}
use pyoneer.Json.Builder.{JsonApi}
use pyoneer.Job.{Job}
use pyoneer.Engine.{Store, Answers}
use pyoneer.Worker.{worker_create}
use pyoneer.Pyoneer.{
  Role, pyoneer_worker, pyoneer_manager, Pyoneer, of_worker, unset, pyoneer_create,
  pyoneer_worker_get_status, pyoneer_run_job, pyoneer_assign_job, pyoneer_worker_restart,
  pyoneer_worker_start, pyoneer_worker_stop,
}

-- The role of a manager, or an id that `worker_create` refuses.
abbrev pub IsUnusable : Role → ℤ → Type 0
IsUnusable role id =
    (role ≡ pyoneer_manager) ⊎ ((role ≡ pyoneer_worker) × ((le_zero id ≡ true) ⊎ (id ≡ pos 1)))

worker_create-refused :
    (id : ℤ) (a b : Bool) (jobs : Store)
    → (le_zero id ≡ true) ⊎ (id ≡ pos 1)
    → worker_create id a b jobs ≡ none
unfolding worker_create
worker_create-refused id a b jobs (inl h) = ground (arith, h)
worker_create-refused id a b jobs (inr h) = rw h refl

unusable-cases :
    (role : Role) (id : ℤ) (ok a b : Bool) (jobs : Store) (y : Pyoneer)
    → pyoneer_create role id ok a b jobs ≡ some y
    → IsUnusable role id
    → (y ≡ of_worker none) ⊎ (y ≡ unset)
unfolding pyoneer_create
unusable-cases role id ok a b jobs y e (inl h) = ground (arith, e, h)
unusable-cases role id ok a b jobs y e (inr (h, h')) =
    ground (arith, e, h, worker_create-refused id a b jobs h')

module _ (api : JsonApi) where
  -- Each of the six commands of a pyoneer faults.
  abbrev pub AllFault : Pyoneer → Answers → ℕ → Job → Supply → Type 0
  AllFault y ans a job s =
      (pyoneer_worker_get_status api ans y s ≡ none)
      × (pyoneer_run_job api ans a job y s ≡ none)
      × (pyoneer_assign_job api ans a job y s ≡ none)
      × (pyoneer_worker_restart ans y s ≡ none)
      × (pyoneer_worker_start ans y s ≡ none)
      × (pyoneer_worker_stop ans y s ≡ none)

  worker_none-AllFault :
      (ans : Answers) (a : ℕ) (job : Job) (s : Supply) → AllFault (of_worker none) ans a job s
  unfolding pyoneer_worker_get_status pyoneer_run_job pyoneer_assign_job pyoneer_worker_restart
      pyoneer_worker_start pyoneer_worker_stop
  worker_none-AllFault ans a job s = (refl, refl, refl, refl, refl, refl)

  unset-AllFault : (ans : Answers) (a : ℕ) (job : Job) (s : Supply) → AllFault unset ans a job s
  unfolding pyoneer_worker_get_status pyoneer_run_job pyoneer_assign_job pyoneer_worker_restart
      pyoneer_worker_start pyoneer_worker_stop
  unset-AllFault ans a job s = (refl, refl, refl, refl, refl, refl)

  -- A pyoneer that is created with the role of a manager, or with the role of a worker and an id that is 1 or less,
  -- faults at each of its commands, whatever the allocator and the system answer.
  pub unusable_pyoneer_faults :
      (role : Role) (id : ℤ) (ok a b : Bool) (jobs : Store) (y : Pyoneer)
      → pyoneer_create role id ok a b jobs ≡ some y
      → IsUnusable role id
      → (ans : Answers) (addr : ℕ) (job : Job) (s : Supply) → AllFault y ans addr job s
  unusable_pyoneer_faults role id ok a b jobs y e h ans addr job s =
      elim (unusable-cases role id ok a b jobs y e h) [
        | inl x ↦ rw x (worker_none-AllFault ans addr job s)
        | inr x ↦ rw x (unset-AllFault ans addr job s)
      ]

-- The process serves with a pyoneer at each command of which it faults, if the configuration is unusable.
abbrev pub FaultsIfUnusable : ProgramAnswers → List String → Exit → Type 0
FaultsIfUnusable ans argv e =
    e.success ≡ true
    → (cfg : AppConfig) × (parse_flags argv (default_config ans.env) ≡ some cfg)
      × (IsUnusable (role_or_other cfg.role) cfg.id
          → (y : Pyoneer) × (e.process.pyoneer ≡ some y)
            × ((api : JsonApi) (answers : Answers) (addr : ℕ) (job : Job) (s : Supply)
                → AllFault api y answers addr job s))

-- A program that is started with the role of a manager, or with the role of a worker and an id that is 1 or less,
-- and that ends in success, was not refused by the parser, and has served with a pyoneer that faults at each of its six
-- commands, whatever the allocator and the system answer.
pub main-FaultsIfUnusable :
    (ans : ProgramAnswers) (argv : List String) (sys : Sys) (s : Supply)
    → Ends (FaultsIfUnusable ans argv) (main ans argv sys s)
main-FaultsIfUnusable ans argv sys s =
    Ends-map (IsServed ans argv) (FaultsIfUnusable ans argv) (main ans argv sys s)
      (main-IsServed ans argv sys s)
      λ e served success.
        let (cfg, parsed, has) = served success in
        let (y, here, created) = has.0.0 in
        (
          cfg,
          parsed,
          λ unusable. (
            y,
            here,
            λ api answers addr job s'.
                unusable_pyoneer_faults api (role_or_other cfg.role) cfg.id ans.pyoneer_allocated
                  ans.worker_allocated ans.worker_inited ans.jobs y created unusable answers addr
                  job s',
          ),
        )
