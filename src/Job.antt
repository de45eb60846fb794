-- ===== src/Job.antt =====
-- blueprint/job.h and job.c: a job, its options, its tasks and the status that they give it.
mod Names
pub mod Codec
pub mod Invariant
pub mod Status
pub mod Runner
pub mod Heap
pub mod Samples
pub use Names.*
use pyoneer.Prelude.{
  ℕ, ◌+◌, Bool, true, false, Option, none, some, List, [], ◌∷◌, ◌++◌, ltb, ◌==◌, if◌then◌else◌,
}
use pyoneer.Prelude.Int.{ℤ, le_zero}
use pyoneer.Memory.{Run, pure, malloc, ◌>>=◌}
use pyoneer.Task
use pyoneer.Task.{Task, task_get_status, task_set_status}

-- `struct Job`. The nodes from `head` on are the list; `tail` is its last node.
pub record Job : Type 0 where
  pub id : ℤ
  pub status : JobStatus
  pub size : ℕ
  pub opts : JobOpts
  pub tasks : List Task

unfoldable pub job_opts_default : JobOpts
job_opts_default = record {
  size = opts_size;
  exec_mode = ExecMode.sequential;
  run_mode = RunMode.once;
}

unfoldable pub job_create : ℤ → Run (Option Job)
unfolding job_opts_default
job_create id = if le_zero id then pure none else do
  ok ← malloc
  pure (
      if ok
      then some (record {
        id = id;
        status = JobStatus.ready;
        size = 0;
        opts = job_opts_default;
        tasks = [];
      })
      else none)

unfoldable pub job_get_id : Job → ℤ
job_get_id job = job.id

unfoldable pub job_get_size : Job → ℕ
job_get_size job = job.size

unfoldable pub job_get_tasks : Job → List Task
job_get_tasks job = job.tasks

-- `memcpy` of the first `size` bytes: the modes are at the bytes 8 and 12, little end first, and
-- their codes fit one byte.
unfoldable pub job_set_opts : Job → Option JobOpts → Job
unfolding job_opts_default
job_set_opts job none = record job { opts = job_opts_default }
job_set_opts job (some opts) = record job {
  opts = record {
    size = opts_size;
    exec_mode = if ltb 8 opts.size then opts.exec_mode else job_opts_default.exec_mode;
    run_mode = if ltb 12 opts.size then opts.run_mode else job_opts_default.run_mode;
  };
}

-- The links that `job_add_task` sets. The test reads the size before it is increased.
unfoldable pub append_task : Job → Task → Job
append_task job task = record job {
  size = job.size + 1;
  tasks = if job.size == 0 then task ∷ [] else job.tasks ++ task ∷ [];
}

-- Returns whether it succeeds, and the job.
unfoldable pub job_add_task : Job → Task → Run (Bool × Job)
job_add_task job task = do
  ok ← malloc
  pure (if ok then (true, append_task job task) else (false, job))

-- `int status[5]` of `update_status`
pub record Counts : Type 0 where
  pub not_ready : ℕ
  pub ready : ℕ
  pub running : ℕ
  pub completed : ℕ
  pub incomplete : ℕ

abbrev pub no_counts : Counts
no_counts = record { not_ready = 0; ready = 0; running = 0; completed = 0; incomplete = 0 }

unfoldable pub count_status : Counts → Task.Status → Counts
count_status c Task.not_ready = record c { not_ready = c.not_ready + 1 }
count_status c Task.ready = record c { ready = c.ready + 1 }
count_status c Task.running = record c { running = c.running + 1 }
count_status c Task.completed = record c { completed = c.completed + 1 }
count_status c Task.incomplete = record c { incomplete = c.incomplete + 1 }
count_status c Task.other = c

unfoldable pub count_statuses : Counts → List Task → Counts
unfolding count_status task_get_status
count_statuses c [] = c
count_statuses c (task ∷ tasks) = count_statuses (count_status c (task_get_status task)) tasks

unfoldable pub status_of_counts : Counts → JobStatus
status_of_counts c =
    if ltb 0 c.running
    then JobStatus.running
    else if ltb 0 c.not_ready
    then JobStatus.not_ready
    else if ltb 0 c.incomplete
    then JobStatus.incomplete
    else if ltb 0 c.ready
    then JobStatus.ready
    else JobStatus.completed

unfoldable pub update_status : Job → Job
unfolding count_statuses status_of_counts
update_status job =
    if job.size == 0
    then job
    else record job { status = status_of_counts (count_statuses no_counts job.tasks) }

-- Updates the job, and returns its status.
unfoldable pub job_get_status : Job → Job × JobStatus
unfolding update_status
job_get_status job = let job' = update_status job in (job', job'.status)

unfoldable pub reset_tasks : List Task → List Task
unfolding task_set_status
reset_tasks [] = []
reset_tasks (task ∷ tasks) = task_set_status task Task.ready ∷ reset_tasks tasks

unfoldable pub reset_status : Job → Job
unfolding reset_tasks
reset_status job = record job { tasks = reset_tasks job.tasks }
