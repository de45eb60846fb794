-- ===== src/Worker/Commands.antt =====
-- pyoneer/worker.c: the commands of a worker with the JSON that they return.
use pyoneer.Prelude.{ℕ, Option, none, some, if◌then◌else◌}
use pyoneer.Memory.{Run, pure, call, deref, ◌>>=◌}
use pyoneer.Json.{Json}
use pyoneer.Json.Builder.{JsonApi}
use pyoneer.Json.Push.{push_entry, add_integer}
use pyoneer.Job.{job_get_id}
use pyoneer.Job.Codec.{job_encode_status}
use pyoneer.Engine.{write, Answers}
use pyoneer.Worker.{Worker, WorkerStatus, update_status, run_locked, assign_locked}

module _ (api : JsonApi) where
  unfoldable pub worker_status_map : WorkerStatus → Run (Option Json)
  worker_status_map WorkerStatus.not_assigned = call (api.string_new "not_assigned")
  worker_status_map WorkerStatus.assigned = call (api.string_new "assigned")
  worker_status_map WorkerStatus.not_working = call (api.string_new "not_working")
  worker_status_map WorkerStatus.working = call (api.string_new "working")
  worker_status_map WorkerStatus.other = pure none

  -- The member `job` of the status: null, or the status of the job with its id. Reading the status
  -- of the job updates the job.
  unfoldable pub push_job : Option ℕ → Worker → Option Json → Run (Option Json × Worker)
  push_job none w obj = do
    job_status ← call api.null_new
    obj' ← push_entry api obj "job" job_status
    pure (obj', w)
  push_job (some a) w obj = do
    job ← deref (w.engine.jobs a)
    (job_status, job') ← job_encode_status api job
    job_status' ← add_integer api job_status "id" (job_get_id job')
    obj' ← push_entry api obj "job" job_status'
    pure (obj', record w { engine = record w.engine { jobs = write w.engine.jobs a (some job') } })

  -- The entries of the new object, or NULL.
  unfoldable pub fill_status : Worker → Option Json → Run (Option Json × Worker)
  unfolding push_job
  fill_status w none = pure (none, w)
  fill_status w (some obj) = do
    status ← worker_status_map w.status
    obj' ← push_entry api (some obj) "status" status
    push_job w.job w obj'

  unfoldable pub get_status : Worker → Run (Option Json × Worker)
  unfolding fill_status
  get_status w = do obj ← call api.object_new; fill_status (update_status w) obj

  -- A lock that cannot be taken gives NULL.
  unfoldable pub worker_get_status : Answers → Worker → Run (Option Json × Worker)
  worker_get_status ans w = if ans.locked then get_status w else pure (none, w)

  unfoldable pub worker_run : Answers → Option ℕ → Worker → Run (Option Json × Worker)
  worker_run ans none w = pure (none, w)
  worker_run ans (some a) w =
      if ans.locked
      then (let (taken, w₁) = run_locked ans a w in
          if taken then get_status w₁ else pure (none, w₁))
      else pure (none, w)

  unfoldable pub worker_assign : Answers → Option ℕ → Worker → Run (Option Json × Worker)
  worker_assign ans none w = pure (none, w)
  worker_assign ans (some a) w =
      if ans.locked
      then (let (taken, w₁) = assign_locked a w in if taken then get_status w₁ else pure (none, w₁))
      else pure (none, w)
