-- ===== src/Worker/Reply/Whole.antt =====
-- pyoneer/worker.c, pyoneer/pyoneer.c: the whole reply of a worker that holds a job.
mod Samples
use pyoneer.Prelude.{
  ◌≡◌, ◌≢◌, refl, ap, ◌∙◌, ℕ, Bool, true, false, Option, none, some, String, List, [], ◌∷◌, arith,
  if◌then◌else◌,
}
use pyoneer.Prelude.Int.{ℤ}
use pyoneer.Json.{
  Json, Items, nil, cons, Fields, end, field, object, array, string, integer, null, push_item,
  push_field,
}
use pyoneer.Json.Builder.{JsonApi}
use pyoneer.Json.Push.{add_string, add_integer, push_entry}
use pyoneer.Json.Push.Plenty.{
  object_new_plenty, array_new_plenty, string_new_plenty, add_string_plenty, add_integer_plenty,
  push_entry_plenty, push_element_plenty,
}
use pyoneer.Task
use pyoneer.Task.{Task, Status, task_status_map, task_encode_status, task_get_name, task_get_status}
use pyoneer.Job.{Job, JobStatus, job_get_status, job_get_id}
use pyoneer.Job.Codec.{job_status_map, encode_task_statuses, job_encode_status}
use pyoneer.Job.Codec.Encode.{append_items, append_items-push_item, append_items-nil}
use pyoneer.Engine.{Answers, Engine, write}
use pyoneer.Worker.{Worker, WorkerStatus, update_status, worker_get_id}
use pyoneer.Worker.Commands.{
  worker_status_map, push_job, fill_status, get_status, worker_get_status,
}
use pyoneer.Pyoneer.{Pyoneer, of_worker, add_role, worker_of, pyoneer_worker_get_status}
use pyoneer.Worker.{status_of_job}
use pyoneer.Job.Status.{job_get_status-known}
use pyoneer.Worker.Busy.{read_worker, update_status-read}
use pyoneer.Worker.Reply.{task_reports, job_status_value, job_fields, job_encode_status-eq}

abbrev pub worker_status_text : WorkerStatus → String
worker_status_text WorkerStatus.not_assigned = "not_assigned"
worker_status_text WorkerStatus.assigned = "assigned"
worker_status_text WorkerStatus.not_working = "not_working"
worker_status_text WorkerStatus.working = "working"
worker_status_text WorkerStatus.other = ""

-- What the reply says of a job that was read with a status.
abbrev pub job_report : Job → JobStatus → Json
job_report job status = object (
    field "status" (job_status_value status)
      (field "tasks" (array (task_reports job.tasks)) (field "id" (integer job.id) end)))

abbrev pub worker_report : Worker → Job → JobStatus → Json
worker_report w job status = object (
    field "status" (string (worker_status_text (status_of_job w.status status))) (
      field "job" (job_report job status)
        (field "role" (string "worker") (field "id" (integer w.id) end))))

-- Reading the status once more changes nothing.
job_get_status-again :
    (job : Job)
    → ((job_get_status (job_get_status job).0).1 ≡ (job_get_status job).1)
      × ((job_get_status (job_get_status job).0).0.tasks ≡ job.tasks)
      × ((job_get_status (job_get_status job).0).0.id ≡ job.id)
unfolding job_get_status
job_get_status-again job = (ground arith, ground arith, ground arith)

status_of_job-known :
    (old : WorkerStatus) (s : JobStatus)
    → s ≢ JobStatus.other
    → status_of_job old s ≢ WorkerStatus.other
unfolding status_of_job
status_of_job-known old s h = ground arith

written : (w : Worker) (a : ℕ) (job : Job) → write w.engine.jobs a (some job) a ≡ some job
written w a job = ground arith

module _ (api : JsonApi) where
  worker_status_map-eq :
      (s : WorkerStatus)
      → s ≢ WorkerStatus.other
      → worker_status_map api s [] ≡ some (some (string (worker_status_text s)), [])
  unfolding worker_status_map
  worker_status_map-eq WorkerStatus.not_assigned h = ap some (string_new_plenty api "not_assigned")
  worker_status_map-eq WorkerStatus.assigned h = ap some (string_new_plenty api "assigned")
  worker_status_map-eq WorkerStatus.not_working h = ap some (string_new_plenty api "not_working")
  worker_status_map-eq WorkerStatus.working h = ap some (string_new_plenty api "working")
  worker_status_map-eq WorkerStatus.other h = absurd (h refl)

  push_job-eq :
      (a : ℕ) (w : Worker) (job : Job) (v : Json)
      → w.engine.jobs a ≡ some job
      → (w' : Worker) × (push_job api (some a) w (some (object (field "status" v end))) []
          ≡ some (
            (
              some (
                  object (
                    field "status" v (
                      field "job" (job_report (job_get_status job).0 (job_get_status job).1) end))),
              w',
            ),
            [],
          ))
        × (w'.id ≡ w.id)
  unfolding push_job push_field job_get_id
  push_job-eq a w job v e =
      let job' = (job_get_status job).0 in
      let fields = job_fields job' (job_get_status job).1 in
      (
        record w { engine = record w.engine { jobs = write w.engine.jobs a (some job') } },
        ground (
          arith,
          e,
          job_encode_status-eq api job,
          add_integer_plenty api fields "id" job'.id,
          push_entry_plenty api (field "status" v end) "job"
              (job_report job' (job_get_status job).1),
        ),
        refl,
      )

  fill_status-eq :
      (a : ℕ) (w : Worker) (job : Job)
      → w.job ≡ some a
      → w.engine.jobs a ≡ some job
      → w.status ≢ WorkerStatus.other
      → (w' : Worker) × (fill_status api w (some (object end)) []
          ≡ some (
            (
              some (
                  object (
                    field "status" (string (worker_status_text w.status)) (
                      field "job" (job_report (job_get_status job).0 (job_get_status job).1) end))),
              w',
            ),
            [],
          ))
        × (w'.id ≡ w.id)
  unfolding fill_status push_field
  fill_status-eq a w job holds stored known =
      let text = string (worker_status_text w.status) in
      let (w', pushed, same) = push_job-eq a w job text stored in
      (
        w',
        ground (
          arith,
          holds,
          worker_status_map-eq w.status known,
          push_entry_plenty api end "status" text,
          pushed,
        ),
        same,
      )

  -- Where no allocation fails and the lock is taken, the status of a worker that holds a stored job of
  -- at least one task is a JSON object with the status that the job gives the worker, the status of
  -- the job, its tasks in order with their names and statuses, and its id, and with the role and the
  -- id of the worker.
  pub get_status_reports :
      (ans : Answers) (w : Worker) (a : ℕ) (job : Job)
      → ans.locked ≡ true
      → w.job ≡ some a
      → w.engine.jobs a ≡ some job
      → job.size ≢ 0
      → (w' : Worker) × (pyoneer_worker_get_status api ans (of_worker (some w)) []
          ≡ some ((some (worker_report w job (job_get_status job).1), of_worker (some w')), []))
  unfolding pyoneer_worker_get_status worker_get_status get_status add_role push_field
  get_status_reports ans w a job locked holds stored sized =
      let job₁ = (job_get_status job).0 in
      let w₁ = read_worker w a job in
      let text = string (worker_status_text w₁.status) in
      let (status, tasks, id) = job_get_status-again job in
      let (w', filled, same) =
        fill_status-eq a w₁ job₁ holds (written w a job₁)
          (status_of_job-known w.status (job_get_status job).1 (job_get_status-known job sized)) in
      let fields : Fields =
        field "status" text
          (field "job" (job_report (job_get_status job₁).0 (job_get_status job₁).1) end) in
      (
        w',
        ground (
          arith,
          locked,
          object_new_plenty api,
          update_status-read w a job holds stored,
          filled,
          same,
          status,
          tasks,
          id,
          add_string_plenty api fields "role" "worker",
          add_integer_plenty api (push_field fields "role" (string "worker")) "id" w'.id,
        ),
      )
