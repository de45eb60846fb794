-- ===== src/Job/Invariant.antt =====
-- blueprint/job.c: what holds of a job between two operations.
use pyoneer.Prelude.{
  suc, ◌+◌, ◌≡◌, refl, ap, false, Option, none, some, List, [], ◌∷◌, ◌++◌, arith, length,
  length-append,
}
use pyoneer.Prelude.Int.{ℤ, le_zero}
use pyoneer.Memory.{Supply}
use pyoneer.Task.{Task}
use pyoneer.Job.{
  Job, JobOpts, job_create, job_set_opts, append_task, update_status, reset_tasks, reset_status,
}

-- The number of tasks is kept beside the list, and the id is positive.
pub record IsWellFormed (job : Job) : Type 0 where
  pub counted : job.size ≡ length job.tasks
  pub positive : le_zero job.id ≡ false

-- Whatever job an action yields has the property.
abbrev pub Yields : (Job → Type 0) → Option (Option Job × Supply) → Type 0
Yields P none = Unit
Yields P (some (none, s)) = Unit
Yields P (some (some job, s)) = P job

pub job_create-IsWellFormed : (id : ℤ) (s : Supply) → Yields IsWellFormed (job_create id s)
unfolding job_create
job_create-IsWellFormed id [] = ground arith
job_create-IsWellFormed id (b ∷ s) = ground arith

pub job_set_opts-IsWellFormed :
    (job : Job) (opts : Option JobOpts) → IsWellFormed job → IsWellFormed (job_set_opts job opts)
unfolding job_set_opts
job_set_opts-IsWellFormed job none w = ground arith
job_set_opts-IsWellFormed job (some opts) w = ground arith

nil_of_length : (tasks : List Task) → length tasks ≡ 0 → tasks ≡ []
nil_of_length [] h = refl
nil_of_length (task ∷ tasks) h = absurd (omega arith)

pub append_task-eq :
    (job : Job) (task : Task)
    → IsWellFormed job
    → append_task job task ≡ record job { size = job.size + 1; tasks = job.tasks ++ task ∷ [] }
unfolding append_task
append_task-eq job task w = ground (arith, nil_of_length job.tasks)

pub append_task-IsWellFormed :
    (job : Job) (task : Task) → IsWellFormed job → IsWellFormed (append_task job task)
append_task-IsWellFormed job task w =
    rw (append_task-eq job task w) (ground (arith, length-append job.tasks (task ∷ [])))

pub update_status-IsWellFormed : (job : Job) → IsWellFormed job → IsWellFormed (update_status job)
unfolding update_status
update_status-IsWellFormed job w = ground arith

pub length-reset_tasks : (tasks : List Task) → length (reset_tasks tasks) ≡ length tasks
unfolding reset_tasks
length-reset_tasks [] = refl
length-reset_tasks (task ∷ tasks) = ap suc (length-reset_tasks tasks)

pub reset_status-IsWellFormed : (job : Job) → IsWellFormed job → IsWellFormed (reset_status job)
unfolding reset_status
reset_status-IsWellFormed job w = ground (arith, length-reset_tasks job.tasks)
