-- ===== src/Worker.antt =====
-- pyoneer/worker.c: a worker with its engine and its job. An operation takes what the system answers
-- during it, and gives the state behind it.
mod Names
pub mod Status
pub mod Commands
pub mod Busy
pub mod Watch
pub mod Safety
pub mod Sound
pub mod Reply
pub use Names.*
use pyoneer.Prelude.{
  ℕ, String, Bool, true, false, not, ◌&&◌, ◌||◌, Option, none, some, str_eq, if◌then◌else◌,
}
use pyoneer.Prelude.Int.{ℤ, pos, le_zero, ◌==ℤ◌}
use pyoneer.Json.{Json, string}
use pyoneer.Job.{Job, JobStatus, job_get_status, job_get_id}
use pyoneer.Engine.{
  Store, write, Runner, Answers, Engine, engine_create, engine_run, engine_restart, engine_stop,
  engine_destroy,
}

-- `struct Worker`, with the store that its engine shares.
pub record Worker : Type 0 where
  pub id : ℤ
  pub status : WorkerStatus
  pub job : Option ℕ
  pub engine : Engine

-- `malloc` and `pthread_mutex_init` succeed, or the worker is NULL. `engine_create` is taken to succeed,
-- since its result is not tested: Engine/Threads has what an engine that is NULL does.
unfoldable pub worker_create : ℤ → Bool → Bool → Store → Option Worker
unfolding engine_create
worker_create id allocated inited jobs =
    if le_zero id || id ==ℤ pos 1
    then none
    else if allocated && inited
    then some (record {
      id = id;
      status = WorkerStatus.not_assigned;
      job = none;
      engine = engine_create jobs;
    })
    else none

unfoldable pub worker_get_id : Worker → ℤ
worker_get_id w = w.id

-- The `switch` of `update_status`, which has no default.
unfoldable pub status_of_job : WorkerStatus → JobStatus → WorkerStatus
status_of_job old JobStatus.ready = WorkerStatus.assigned
status_of_job old JobStatus.running = WorkerStatus.working
status_of_job old JobStatus.not_ready = WorkerStatus.not_working
status_of_job old JobStatus.completed = WorkerStatus.not_working
status_of_job old JobStatus.incomplete = WorkerStatus.not_working
status_of_job old JobStatus.other = old

-- A job that has been freed cannot be read: then nothing is said of the worker.
unfoldable pub read_job : Worker → ℕ → Option Job → Worker
read_job w a none = w
read_job w a (some job) = record w {
  status = status_of_job w.status (job_get_status job).1;
  engine = record w.engine { jobs = write w.engine.jobs a (some (job_get_status job).0) };
}

unfoldable pub update_status : Worker → Worker
unfolding read_job
update_status w = elim w.job [
  | none ↦ record w { status = WorkerStatus.not_assigned }
  | some a ↦ read_job w a (w.engine.jobs a)
]

-- `job_destroy` of a pointer that may be NULL.
unfoldable pub job_destroy : Option ℕ → Store → Store
job_destroy none jobs = jobs
job_destroy (some a) jobs = write jobs a none

abbrev pub is_working : WorkerStatus → Bool
is_working WorkerStatus.working = true
is_working _ = false

-- The steps of `worker_run` and `worker_assign` under the lock, up to the status that they return:
-- whether the job is taken, and the state.
unfoldable pub run_locked : Answers → ℕ → Worker → Bool × Worker
run_locked ans a w =
    let w₁ = update_status w in
    if is_working w₁.status then (false, w₁) else elim (engine_run ans a w₁.engine) [
      | none ↦ (false, w₁)
      | some e ↦
          (true, record w₁ { job = some a; engine = record e { jobs = job_destroy w₁.job e.jobs } })
    ]

unfoldable pub assign_locked : ℕ → Worker → Bool × Worker
assign_locked a w =
    let w₁ = update_status w in
    if is_working w₁.status then (false, w₁) else (
      true,
      record w₁ {
        job = some a;
        engine = record w₁.engine { jobs = job_destroy w₁.job w₁.engine.jobs };
      },
    )

-- `engine_run` of the worker's job, whose code the signals ignore.
unfoldable pub start_job : Answers → Worker → Worker
start_job ans w = elim w.job [
  | none ↦ w
  | some a ↦ elim (engine_run ans a w.engine) [ none ↦ w | some e ↦ record w { engine = e } ]
]

-- The `switch` of `worker_restart`, and of `worker_start`.
unfoldable pub restart_from : Answers → WorkerStatus → Worker → Worker
unfolding start_job
restart_from ans WorkerStatus.not_assigned w = w
restart_from ans WorkerStatus.assigned w = start_job ans w
restart_from ans WorkerStatus.working w = record w { engine = engine_restart ans w.engine }
restart_from ans WorkerStatus.not_working w = record w { engine = engine_restart ans w.engine }
restart_from ans WorkerStatus.other w = w

unfoldable pub start_from : Answers → WorkerStatus → Worker → Worker
unfolding start_job
start_from ans WorkerStatus.not_assigned w = w
start_from ans WorkerStatus.assigned w = start_job ans w
start_from ans WorkerStatus.working w = w
start_from ans WorkerStatus.not_working w = record w { engine = engine_restart ans w.engine }
start_from ans WorkerStatus.other w = w

-- The signals take no lock.
unfoldable pub worker_restart : Answers → Worker → Worker
unfolding restart_from
worker_restart ans w = let w₁ = update_status w in restart_from ans w₁.status w₁

unfoldable pub worker_start : Answers → Worker → Worker
unfolding start_from
worker_start ans w = let w₁ = update_status w in start_from ans w₁.status w₁

unfoldable pub worker_stop : Answers → Worker → Worker
worker_stop ans w =
    let w₁ = update_status w in
    if is_working w₁.status then record w₁ { engine = engine_stop ans w₁.engine } else w₁

-- `job_destroy` and what falls through below it.
free_job : Answers → Worker → Engine → Engine
unfolding engine_destroy job_destroy
free_job ans w e = engine_destroy ans (record e { jobs = job_destroy w.job e.jobs })

-- The `switch` of `worker_destroy` falls through, and has no case for an assigned worker.
unfoldable pub worker_destroy : Answers → Worker → Engine
unfolding engine_stop free_job
worker_destroy ans w = elim w.status [
  | WorkerStatus.working ↦ free_job ans w (engine_stop ans w.engine)
  | WorkerStatus.not_working ↦ free_job ans w w.engine
  | WorkerStatus.not_assigned ↦ engine_destroy ans w.engine
  | _ ↦ w.engine
]

-- `none` is the code -1.
unfoldable pub worker_status_decode : Json → Option WorkerStatus
worker_status_decode (string s) =
    if str_eq s "not_assigned"
    then some WorkerStatus.not_assigned
    else if str_eq s "not_working"
    then some WorkerStatus.not_working
    else if str_eq s "working"
    then some WorkerStatus.working
    else none
worker_status_decode v = none
