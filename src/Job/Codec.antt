-- ===== src/Job/Codec.antt =====
-- blueprint/job.c: the JSON forms of a job and of its status.
pub mod Encode
pub mod Decode
pub mod Sound
use pyoneer.Prelude.{
  ℕ, String, Bool, true, false, Option, none, some, List, [], ◌∷◌, ◌==◌, str_eq, if◌then◌else◌,
}
use pyoneer.Prelude.Int.{ℤ, to_int}
use pyoneer.Memory.{Run, pure, call, ◌>>=◌}
use pyoneer.Json.{
  Json, Items, nil, cons, Fields, object, array, integer, string, json_object_get_value,
}
use pyoneer.Json.Builder.{JsonApi}
use pyoneer.Json.Push.{
  add_string, add_integer, push_entry, push_element, json_object_push_string,
  json_object_push_integer,
}
use pyoneer.Task.{Task, task_encode, task_encode_status, task_decode, task_get_name}
use pyoneer.Job.{
  Job, JobStatus, JobOpts, ExecMode, RunMode, job_create, job_opts_default, job_set_opts,
  job_add_task, job_get_status,
}

unfoldable pub job_exec_mode_map : ExecMode → String
job_exec_mode_map ExecMode.parallel = "parallel"
job_exec_mode_map ExecMode.sequential = "sequential"
job_exec_mode_map ExecMode.other = ""

unfoldable pub job_run_mode_map : RunMode → String
job_run_mode_map RunMode.once = "once"
job_run_mode_map RunMode.repeat = "repeat"
job_run_mode_map RunMode.other = ""

module _ (api : JsonApi) where
  unfoldable pub job_status_map : JobStatus → Run (Option Json)
  job_status_map JobStatus.not_ready = call (api.string_new "not_ready")
  job_status_map JobStatus.ready = call (api.string_new "ready")
  job_status_map JobStatus.running = call (api.string_new "running")
  job_status_map JobStatus.completed = call (api.string_new "completed")
  job_status_map JobStatus.incomplete = call (api.string_new "incomplete")
  job_status_map JobStatus.other = call api.null_new

  -- The loop of `job_encode`.
  unfoldable pub encode_tasks : List Task → Option Json → Run (Option Json)
  encode_tasks [] arr = pure arr
  encode_tasks (task ∷ tasks) arr = do
    val ← task_encode api task
    arr' ← push_element api arr val
    encode_tasks tasks arr'

  unfoldable pub job_encode : Job → Run (Option Json)
  job_encode job = do
    obj ← call api.object_new
    elim obj [
      | none ↦ pure none
      | some o ↦ do
        o₁ ← add_integer api (some o) "id" job.id
        o₂ ← add_string api o₁ "execMode" (some (job_exec_mode_map job.opts.exec_mode))
        o₃ ← add_string api o₂ "runMode" (some (job_run_mode_map job.opts.run_mode))
        arr ← call api.array_new
        arr' ← encode_tasks job.tasks arr
        push_entry api o₃ "tasks" arr'
    ]

  -- The loop of `job_encode_status`.
  unfoldable pub encode_task_statuses : List Task → Option Json → Run (Option Json)
  encode_task_statuses [] arr = pure arr
  encode_task_statuses (task ∷ tasks) arr = do
    status ← task_encode_status api task
    status' ← add_string api status "name" (task_get_name (some task))
    arr' ← push_element api arr status'
    encode_task_statuses tasks arr'

  -- Reading the status updates the job, which comes back too.
  unfoldable pub job_encode_status : Job → Run (Option Json × Job)
  job_encode_status job = do
    obj ← call api.object_new
    elim obj [
      | none ↦ pure (none, job)
      | some o ↦ do
        let job' = (job_get_status job).0
        status ← job_status_map (job_get_status job).1
        o₁ ← push_entry api (some o) "status" status
        arr ← call api.array_new
        arr' ← encode_task_statuses job'.tasks arr
        o₂ ← push_entry api o₁ "tasks" arr'
        pure (o₂, job')
    ]

-- The mode that a member of the object names; any other text or value leaves the default.
unfoldable pub decode_exec_mode : Option Json → ExecMode → ExecMode
decode_exec_mode (some (string s)) mode =
    if str_eq s "parallel"
    then ExecMode.parallel
    else if str_eq s "sequential"
    then ExecMode.sequential
    else mode
decode_exec_mode v mode = mode

unfoldable pub decode_run_mode : Option Json → RunMode → RunMode
decode_run_mode (some (string s)) mode =
    if str_eq s "repeat" then RunMode.repeat else if str_eq s "once" then RunMode.once else mode
decode_run_mode v mode = mode

-- The loop of `job_decode`; a job that is given up is freed with its tasks.
unfoldable pub decode_tasks : Items → Job → Run (Option Job)
decode_tasks nil job = pure (some job)
decode_tasks (cons v vs) job = do
  decoded ← task_decode (some v)
  elim decoded [
    | none ↦ pure none
    | some task ↦ do
      (added, job') ← job_add_task job task
      if added then decode_tasks vs job' else pure none
  ]

-- The part of `job_decode` behind the tests on the two required members. The id is converted to int.
unfoldable pub decode_members : Fields → ℤ → Items → Run (Option Job)
decode_members fs id tasks = do
  created ← job_create (to_int id)
  elim created [
    | none ↦ pure none
    | some job ↦ do
      let opts = record job_opts_default {
        exec_mode =
            decode_exec_mode (json_object_get_value (some (object fs)) (some "execMode"))
              job_opts_default.exec_mode;
        run_mode =
            decode_run_mode (json_object_get_value (some (object fs)) (some "runMode"))
              job_opts_default.run_mode;
      }
      decode_tasks tasks (job_set_opts job (some opts))
  ]

unfoldable pub decode_required : Fields → Option Json → Option Json → Run (Option Job)
unfolding decode_members
decode_required fs (some (integer id)) (some (array tasks)) = decode_members fs id tasks
decode_required fs id tasks = pure none

unfoldable pub job_decode : Option Json → Run (Option Job)
unfolding decode_required json_object_get_value
job_decode none = pure none
job_decode (some (object fs)) =
    decode_required fs (json_object_get_value (some (object fs)) (some "id"))
      (json_object_get_value (some (object fs)) (some "tasks"))
job_decode (some v) = pure none
