-- ===== src/Job/Status.antt =====
-- blueprint/job.c: what the status of a job says of its tasks.
mod Samples
use pyoneer.Prelude.{
  ℕ, zero, suc, ◌+◌, ◌<◌, ◌≡◌, ◌≢◌, refl, sym, ap, ◌↔◌, ◌⊎◌, inl, inr, Bool, true, false, List, [],
  ◌∷◌, arith, ltb, ◌==◌, if◌then◌else◌, length, map,
}
use pyoneer.Job.Invariant.{IsWellFormed, reset_status-IsWellFormed}
use pyoneer.Task
use pyoneer.Task.{Task, Status, task_get_status}
use pyoneer.Job.{
  Job, JobStatus, Counts, no_counts, count_status, count_statuses, status_of_counts, update_status,
  job_get_status, reset_tasks, reset_status,
}

-- Some task of the list has the status.
abbrev pub HasStatus : Status → List Task → Type 0
HasStatus s [] = ⊥
HasStatus s (task ∷ tasks) = (task.status ≡ s) ⊎ HasStatus s tasks

-- A count is positive exactly where it was, or a task of the list has the status.
count-running :
    (c : Counts) (tasks : List Task)
    → (0 < (count_statuses c tasks).running) ↔ ((0 < c.running) ⊎ HasStatus Task.running tasks)
unfolding count_statuses
count-running c [] = ground arith
count-running c (task ∷ tasks) = ground (arith, count-running (count_status c task.status) tasks)

count-not_ready :
    (c : Counts) (tasks : List Task)
    → (0 < (count_statuses c tasks).not_ready)
      ↔ ((0 < c.not_ready) ⊎ HasStatus Task.not_ready tasks)
unfolding count_statuses
count-not_ready c [] = ground arith
count-not_ready c (task ∷ tasks) =
    ground (arith, count-not_ready (count_status c task.status) tasks)

count-incomplete :
    (c : Counts) (tasks : List Task)
    → (0 < (count_statuses c tasks).incomplete)
      ↔ ((0 < c.incomplete) ⊎ HasStatus Task.incomplete tasks)
unfolding count_statuses
count-incomplete c [] = ground arith
count-incomplete c (task ∷ tasks) =
    ground (arith, count-incomplete (count_status c task.status) tasks)

count-ready :
    (c : Counts) (tasks : List Task)
    → (0 < (count_statuses c tasks).ready) ↔ ((0 < c.ready) ⊎ HasStatus Task.ready tasks)
unfolding count_statuses
count-ready c [] = ground arith
count-ready c (task ∷ tasks) = ground (arith, count-ready (count_status c task.status) tasks)

-- What the status of a job with tasks means, the first that applies.
pub record IsDerived (tasks : List Task) (s : JobStatus) : Type 0 where
  pub running : (s ≡ JobStatus.running) ↔ HasStatus Task.running tasks
  pub not_ready :
      (s ≡ JobStatus.not_ready)
      ↔ ((¬ HasStatus Task.running tasks) × HasStatus Task.not_ready tasks)
  pub incomplete : (s ≡ JobStatus.incomplete) ↔ (
      (¬ HasStatus Task.running tasks)
      × (¬ HasStatus Task.not_ready tasks)
      × HasStatus Task.incomplete tasks)
  pub ready : (s ≡ JobStatus.ready) ↔ (
      (¬ HasStatus Task.running tasks)
      × (¬ HasStatus Task.not_ready tasks)
      × (¬ HasStatus Task.incomplete tasks)
      × HasStatus Task.ready tasks)
  pub completed : (s ≡ JobStatus.completed) ↔ (
      (¬ HasStatus Task.running tasks)
      × (¬ HasStatus Task.not_ready tasks)
      × (¬ HasStatus Task.incomplete tasks)
      × (¬ HasStatus Task.ready tasks))

-- The same over counts that are positive exactly where some task has the status.
status_of_counts-IsDerived :
    (c : Counts) (tasks : List Task)
    → (0 < c.running) ↔ HasStatus Task.running tasks
    → (0 < c.not_ready) ↔ HasStatus Task.not_ready tasks
    → (0 < c.incomplete) ↔ HasStatus Task.incomplete tasks
    → (0 < c.ready) ↔ HasStatus Task.ready tasks
    → IsDerived tasks (status_of_counts c)
unfolding status_of_counts
status_of_counts-IsDerived c tasks r n i d = ground arith

-- The counts start at 0.
from_no_counts : {n : ℕ} {A : Type 0} → (0 < n) ↔ ((0 < 0) ⊎ A) → (0 < n) ↔ A
from_no_counts e = ground arith

job_get_status-eq :
    (job : Job)
    → job.size ≢ 0
    → (job_get_status job).1 ≡ status_of_counts (count_statuses no_counts job.tasks)
unfolding job_get_status
job_get_status-eq job h = ground arith

-- The status read from a job that counts at least one task is derived from the tasks by priority:
-- running, then not ready, incomplete and ready, each exactly if some task has that status and none
-- has one of those before it, and completed exactly if no task has any of the four; reading it
-- changes neither the tasks nor the size.
pub job_get_status-IsDerived :
    (job : Job)
    → job.size ≢ 0
    → IsDerived job.tasks (job_get_status job).1
      × ((job_get_status job).0.status ≡ (job_get_status job).1)
      × ((job_get_status job).0.tasks ≡ job.tasks)
      × ((job_get_status job).0.size ≡ job.size)
unfolding job_get_status
job_get_status-IsDerived job h =
    (rw (job_get_status-eq job h) derived, ground arith, ground arith, ground arith)
  where
    derived : IsDerived job.tasks (status_of_counts (count_statuses no_counts job.tasks))
    derived =
        status_of_counts-IsDerived (count_statuses no_counts job.tasks) job.tasks
          (from_no_counts (count-running no_counts job.tasks))
          (from_no_counts (count-not_ready no_counts job.tasks))
          (from_no_counts (count-incomplete no_counts job.tasks))
          (from_no_counts (count-ready no_counts job.tasks))

not-reset_tasks :
    (s : Status) (tasks : List Task) → s ≢ Task.ready → ¬ HasStatus s (reset_tasks tasks)
unfolding reset_tasks
not-reset_tasks s [] h r = r
not-reset_tasks s (task ∷ tasks) h (inl e) = h (sym e)
not-reset_tasks s (task ∷ tasks) h (inr r) = not-reset_tasks s tasks h r

ready-reset_tasks :
    (tasks : List Task) → length tasks ≢ 0 → HasStatus Task.ready (reset_tasks tasks)
unfolding reset_tasks
ready-reset_tasks [] h = absurd (h refl)
ready-reset_tasks (task ∷ tasks) h = inl refl

names-reset_tasks :
    (tasks : List Task)
    → map (λ task. task.name) (reset_tasks tasks) ≡ map (λ task. task.name) tasks
unfolding reset_tasks
names-reset_tasks [] = refl
names-reset_tasks (task ∷ tasks) = ap (λ ns. task.name ∷ ns) (names-reset_tasks tasks)

-- `reset_status` makes every task of a job ready, so that a well-formed job with tasks reads as
-- ready whatever the statuses were; the job stays well formed and the names keep their order.
pub reset_status-ready :
    (job : Job)
    → IsWellFormed job
    → job.size ≢ 0
    → ((job_get_status (reset_status job)).1 ≡ JobStatus.ready)
      × IsWellFormed (reset_status job)
      × (map (λ task. task.name) (reset_status job).tasks ≡ map (λ task. task.name) job.tasks)
unfolding reset_status
reset_status-ready job w h = (
  (job_get_status-IsDerived (reset_status job) h).0.ready.1 (
    not-reset_tasks Task.running job.tasks (λ e. cc),
    not-reset_tasks Task.not_ready job.tasks (λ e. cc),
    not-reset_tasks Task.incomplete job.tasks (λ e. cc),
    ready-reset_tasks job.tasks (omega arith),
  ),
  reset_status-IsWellFormed job w,
  names-reset_tasks job.tasks,
)

pub job_get_status-known : (job : Job) → job.size ≢ 0 → (job_get_status job).1 ≢ JobStatus.other
unfolding job_get_status
job_get_status-known job h = ground arith
