-- ===== src/Worker/Reply.antt =====
-- pyoneer/worker.c, blueprint/job.c: the reply to a request for the status where no allocation fails.
pub mod Whole
use pyoneer.Prelude.{
  ◌≡◌, ◌≢◌, refl, ap, ◌∙◌, ℕ, Bool, true, false, Option, none, some, String, List, [], ◌∷◌, arith,
  if◌then◌else◌,
}
use pyoneer.Prelude.Int.{ℤ}
use pyoneer.Json.{
  Json, Items, nil, cons, Fields, end, field, object, array, string, integer, null, push_item,
  push_field,
}
use pyoneer.Json.Builder.{JsonApi}
use pyoneer.Json.Push.{add_string, add_integer, push_entry}
use pyoneer.Json.Push.Plenty.{
  object_new_plenty, array_new_plenty, string_new_plenty, add_string_plenty, add_integer_plenty,
  push_entry_plenty, push_element_plenty,
}
use pyoneer.Task
use pyoneer.Task.{Task, Status, task_status_map, task_encode_status, task_get_name, task_get_status}
use pyoneer.Job.{Job, JobStatus, job_get_status, job_get_id}
use pyoneer.Job.Codec.{job_status_map, encode_task_statuses, job_encode_status}
use pyoneer.Job.Codec.Encode.{append_items, append_items-push_item, append_items-nil}
use pyoneer.Engine.{Answers, Engine, write}
use pyoneer.Worker.{Worker, WorkerStatus, update_status, worker_get_id}
use pyoneer.Worker.Commands.{
  worker_status_map, push_job, fill_status, get_status, worker_get_status,
}
use pyoneer.Pyoneer.{Pyoneer, of_worker, add_role, worker_of, pyoneer_worker_get_status}

-- The JSON form of each status, and of the tasks with their names.
abbrev pub task_status_value : Status → Json
task_status_value Task.not_ready = string "not_ready"
task_status_value Task.ready = string "ready"
task_status_value Task.running = string "running"
task_status_value Task.completed = string "completed"
task_status_value Task.incomplete = string "incomplete"
task_status_value Task.other = null

abbrev named_after : Option String → Fields
named_after none = end
named_after (some n) = field "name" (string n) end

abbrev pub task_report : Task → Json
task_report task = object (field "status" (task_status_value task.status) (named_after task.name))

abbrev pub task_reports : List Task → Items
task_reports [] = nil
task_reports (task ∷ tasks) = cons (task_report task) (task_reports tasks)

abbrev pub job_status_value : JobStatus → Json
job_status_value JobStatus.not_ready = string "not_ready"
job_status_value JobStatus.ready = string "ready"
job_status_value JobStatus.running = string "running"
job_status_value JobStatus.completed = string "completed"
job_status_value JobStatus.incomplete = string "incomplete"
job_status_value JobStatus.other = null

-- The status of a job that has been read, and its tasks.
abbrev pub job_fields : Job → JobStatus → Fields
job_fields job status =
    field "status" (job_status_value status) (field "tasks" (array (task_reports job.tasks)) end)

module _ (api : JsonApi) where
  task_status_map-eq :
      (s : Status) → task_status_map api s [] ≡ some (some (task_status_value s), [])
  unfolding task_status_map
  task_status_map-eq Task.not_ready = ap some (string_new_plenty api "not_ready")
  task_status_map-eq Task.ready = ap some (string_new_plenty api "ready")
  task_status_map-eq Task.running = ap some (string_new_plenty api "running")
  task_status_map-eq Task.completed = ap some (string_new_plenty api "completed")
  task_status_map-eq Task.incomplete = ap some (string_new_plenty api "incomplete")
  task_status_map-eq Task.other = ap some (api.null_new_lem.1)

  job_status_map-eq :
      (s : JobStatus) → job_status_map api s [] ≡ some (some (job_status_value s), [])
  unfolding job_status_map
  job_status_map-eq JobStatus.not_ready = ap some (string_new_plenty api "not_ready")
  job_status_map-eq JobStatus.ready = ap some (string_new_plenty api "ready")
  job_status_map-eq JobStatus.running = ap some (string_new_plenty api "running")
  job_status_map-eq JobStatus.completed = ap some (string_new_plenty api "completed")
  job_status_map-eq JobStatus.incomplete = ap some (string_new_plenty api "incomplete")
  job_status_map-eq JobStatus.other = ap some (api.null_new_lem.1)

  add_name-eq :
      (v : Json) (n : Option String)
      → add_string api (some (object (field "status" v end))) "name" n []
        ≡ some (some (object (field "status" v (named_after n))), [])
  unfolding add_string
  add_name-eq v none = refl
  add_name-eq v (some n) =
      unfold push_field in add_string_plenty api (field "status" v end) "name" n

  task_encode_status-eq :
      (task : Task)
      → task_encode_status api task []
        ≡ some (some (object (field "status" (task_status_value task.status) end)), [])
  unfolding task_encode_status push_field
  task_encode_status-eq task = ground (
    arith,
    object_new_plenty api,
    task_status_map-eq task.status,
    push_entry_plenty api end "status" (task_status_value task.status),
  )

  encode_task_statuses-eq :
      (tasks : List Task) (xs : Items)
      → encode_task_statuses api tasks (some (array xs)) []
        ≡ some (some (array (append_items xs (task_reports tasks))), [])
  unfolding encode_task_statuses task_get_name
  encode_task_statuses-eq [] xs = rw append_items-nil
  encode_task_statuses-eq (task ∷ tasks) xs = ground (
    arith,
    task_encode_status-eq task,
    add_name-eq (task_status_value task.status) task.name,
    push_element_plenty api xs (task_report task),
    encode_task_statuses-eq tasks (push_item xs (task_report task)),
    append_items-push_item xs (task_report task) (task_reports tasks),
  )

  pub job_encode_status-eq :
      (job : Job)
      → job_encode_status api job []
        ≡ some (
          (
            some (object (job_fields (job_get_status job).0 (job_get_status job).1)),
            (job_get_status job).0,
          ),
          [],
        )
  unfolding job_encode_status push_field
  job_encode_status-eq job =
      let job' = (job_get_status job).0 in
      let value = job_status_value (job_get_status job).1 in
      ground (
        arith,
        object_new_plenty api,
        job_status_map-eq (job_get_status job).1,
        push_entry_plenty api end "status" value,
        array_new_plenty api,
        encode_task_statuses-eq job'.tasks nil,
        push_entry_plenty api (field "status" value end) "tasks" (array (task_reports job'.tasks)),
      )
