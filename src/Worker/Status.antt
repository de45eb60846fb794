-- ===== src/Worker/Status.antt =====
-- pyoneer/worker.c: what the status of a worker says, and its JSON form.
use pyoneer.Prelude.{ℕ, ◌≡◌, ◌≢◌, ◌↔◌, refl, ap, none, some, [], arith}
use pyoneer.Json.{Json, string}
use pyoneer.Json.Builder.{JsonApi}
use pyoneer.Json.Push.Plenty.{string_new_plenty}
use pyoneer.Task
use pyoneer.Job.{Job, JobStatus, job_get_status}
use pyoneer.Job.Status.{HasStatus, IsDerived, job_get_status-IsDerived, job_get_status-known}
use pyoneer.Worker.{Worker, WorkerStatus, status_of_job, update_status, worker_status_decode}
use pyoneer.Worker.Commands.{worker_status_map}

update_status-eq :
    (w : Worker) (a : ℕ) (job : Job)
    → w.job ≡ some a
    → w.engine.jobs a ≡ some job
    → (update_status w).status ≡ status_of_job w.status (job_get_status job).1
unfolding update_status
update_status-eq w a job e f = rw (e, f)

status_of_job-reads :
    (old : WorkerStatus) (s : JobStatus)
    → s ≢ JobStatus.other
    → ((status_of_job old s ≡ WorkerStatus.working) ↔ (s ≡ JobStatus.running))
      × ((status_of_job old s ≡ WorkerStatus.assigned) ↔ (s ≡ JobStatus.ready))
      × (status_of_job old s ≢ WorkerStatus.not_assigned)
unfolding status_of_job
status_of_job-reads old s h = ground arith

-- What the status of a worker says of the job that it holds.
pub record IsReading (status : WorkerStatus) (job : Job) : Type 0 where
  pub working : (status ≡ WorkerStatus.working) ↔ HasStatus Task.running job.tasks
  pub assigned : (status ≡ WorkerStatus.assigned) ↔ (
      (¬ HasStatus Task.running job.tasks)
      × (¬ HasStatus Task.not_ready job.tasks)
      × (¬ HasStatus Task.incomplete job.tasks)
      × HasStatus Task.ready job.tasks)
  pub held : status ≢ WorkerStatus.not_assigned

-- `update_status` of a worker with a job of at least one task: the worker is working exactly if some
-- task is running, assigned exactly if some task is ready and none is running, not ready or
-- incomplete, and it is not unassigned.
pub update_status-IsReading :
    (w : Worker) (a : ℕ) (job : Job)
    → w.job ≡ some a
    → w.engine.jobs a ≡ some job
    → job.size ≢ 0
    → IsReading (update_status w).status job
update_status-IsReading w a job e f h =
    let derived : IsDerived job.tasks (job_get_status job).1 = (job_get_status-IsDerived job h).0 in
    let reads = status_of_job-reads w.status (job_get_status job).1 (job_get_status-known job h) in
    rw (update_status-eq w a job e f) (record {
      working = (λ x. derived.running.0 (reads.0.0 x), λ x. reads.0.1 (derived.running.1 x));
      assigned = (λ x. derived.ready.0 (reads.1.0 x), λ x. reads.1.1 (derived.ready.1 x));
      held = reads.2;
    })

-- Every status code of a worker has a JSON string where no allocation fails, and
-- `worker_status_decode` reads that string back exactly if the status is not assigned; it reads the
-- string of that one as unknown.
pub worker_status_decode-map :
    (api : JsonApi) (s : WorkerStatus)
    → s ≢ WorkerStatus.other
    → (j : Json) × (worker_status_map api s [] ≡ some (some j, []))
      × ((worker_status_decode j ≡ some s) ↔ (s ≢ WorkerStatus.assigned))
      × ((worker_status_decode j ≡ none) ↔ (s ≡ WorkerStatus.assigned))
unfolding worker_status_map worker_status_decode
worker_status_decode-map api WorkerStatus.not_assigned h = (
  string "not_assigned",
  ap some (string_new_plenty api "not_assigned"),
  ground arith,
  ground arith,
)
worker_status_decode-map api WorkerStatus.assigned h =
    (string "assigned", ap some (string_new_plenty api "assigned"), ground arith, ground arith)
worker_status_decode-map api WorkerStatus.not_working h = (
  string "not_working",
  ap some (string_new_plenty api "not_working"),
  ground arith,
  ground arith,
)
worker_status_decode-map api WorkerStatus.working h =
    (string "working", ap some (string_new_plenty api "working"), ground arith, ground arith)
worker_status_decode-map api WorkerStatus.other h = absurd (h refl)
