-- ===== src/Job/Codec/Decode.antt =====
-- blueprint/job.c: `job_decode` on the JSON form of a job.
mod Samples
use pyoneer.Prelude.{
  ℕ, suc, ◌+◌, ◌≡◌, ◌≢◌, refl, ap, ◌∙◌, ◌⊎◌, inl, inr, Bool, true, false, Option, none, some,
  String, List, [], ◌∷◌, ◌++◌, arith, str_eq, eq_iff, length, if◌then◌else◌,
}
use pyoneer.Prelude.Int.{ℤ, le_zero, IsInt, to_int_of_IsInt, to_int}
use pyoneer.Memory.{Supply, Run, ◌>>=◌, call}
use pyoneer.Json.Push.{add_string, add_integer, push_entry, push_element}
use pyoneer.Json.{
  Json, Items, nil, cons, Fields, end, field, object, array, string, integer, push_item, push_field,
}
use mathlib.Core.List.{append-nil, append_assoc}
use pyoneer.Json.{find_field, json_object_get_value}
use pyoneer.Job.{job_create, job_set_opts, job_opts_default}
use pyoneer.Task.{task_set_status}
use pyoneer.Json.Builder.{JsonApi}
use pyoneer.Json.Push.Plenty.{
  object_new_plenty, array_new_plenty, string_new_plenty, add_string_plenty, add_integer_plenty,
  push_entry_plenty, push_element_plenty,
}
use pyoneer.Task
use pyoneer.Task.{Task, task_encode, task_decode}
use pyoneer.Job.{
  Job, JobStatus, JobOpts, ExecMode, RunMode, opts_size, append_task, reset_tasks, reset_status,
  job_add_task,
}
use pyoneer.Job.Codec.Encode.{
  head_fields, named, task_json, task_items, whole_fields, job_json, append_items,
  append_items-push_item, append_items-nil, job_encode-eq,
}
use pyoneer.Job.Codec.{
  job_exec_mode_map, job_run_mode_map, encode_tasks, job_encode, decode_tasks, job_decode,
  decode_exec_mode, decode_run_mode, decode_members, decode_required,
}
use pyoneer.Job.Invariant.{IsWellFormed, append_task-eq, append_task-IsWellFormed}

-- A task that was made by `task_create` with every allocation successful.
abbrev pub IsNamed : Task → Type 0
IsNamed task = (n : String) × (task.name ≡ some n) × (n ≢ "")

abbrev pub AllNamed : List Task → Type 0
AllNamed [] = Unit
AllNamed (task ∷ tasks) = IsNamed task × AllNamed tasks

task_decode-eq :
    (task : Task)
    → IsNamed task
    → task_decode (some (task_json task)) [] ≡ some (some (task_set_status task Task.ready), [])
unfolding task_decode find_field task_set_status
task_decode-eq task (n, e, h) = ground (arith, eq_iff n "", e, h)

job_add_task_plenty :
    (job : Job) (task : Task) → job_add_task job task [] ≡ some ((true, append_task job task), [])
unfolding job_add_task
job_add_task_plenty job task = refl

-- The job that the loop of `job_decode` has once it has read the tasks.
abbrev with_tasks : Job → List Task → Job
with_tasks job tasks = record job {
  size = job.size + length tasks;
  tasks = job.tasks ++ reset_tasks tasks;
}

decode_tasks-eq :
    (tasks : List Task) (job : Job)
    → IsWellFormed job
    → AllNamed tasks
    → decode_tasks (task_items tasks) job [] ≡ some (some (with_tasks job tasks), [])
unfolding decode_tasks reset_tasks
decode_tasks-eq [] job w named = ground (arith, append-nil job.tasks)
decode_tasks-eq (task ∷ tasks) job w named = ground (
  arith,
  task_decode-eq task named.0,
  job_add_task_plenty job ready_task,
  append_task-eq job ready_task w,
  append_assoc job.tasks (ready_task ∷ []) (reset_tasks tasks),
  decode_tasks-eq tasks (append_task job ready_task) (append_task-IsWellFormed job ready_task w)
      named.1,
)
  where
    ready_task : Task
    ready_task = task_set_status task Task.ready

-- Options that the JSON form can say.
pub record IsStandard (opts : JobOpts) : Type 0 where
  pub full : opts.size ≡ opts_size
  pub exec_known : opts.exec_mode ≢ ExecMode.other
  pub run_known : opts.run_mode ≢ RunMode.other

decode_exec_mode-map :
    (mode : ExecMode)
    → mode ≢ ExecMode.other
    → decode_exec_mode (some (string (job_exec_mode_map mode))) ExecMode.sequential ≡ mode
unfolding decode_exec_mode job_exec_mode_map
decode_exec_mode-map ExecMode.sequential h = refl
decode_exec_mode-map ExecMode.parallel h = refl
decode_exec_mode-map ExecMode.other h = absurd (h refl)

decode_run_mode-map :
    (mode : RunMode)
    → mode ≢ RunMode.other
    → decode_run_mode (some (string (job_run_mode_map mode))) RunMode.once ≡ mode
unfolding decode_run_mode job_run_mode_map
decode_run_mode-map RunMode.once h = refl
decode_run_mode-map RunMode.repeat h = refl
decode_run_mode-map RunMode.other h = absurd (h refl)

-- A job with the id and options, no task yet.
abbrev empty_job : Job → Job
empty_job job = record job { status = JobStatus.ready; size = 0; tasks = [] }

decode_members-eq :
    (job : Job) (fs : Fields) (tasks : Items)
    → le_zero job.id ≡ false
    → IsInt job.id
    → IsStandard job.opts
    → json_object_get_value (some (object fs)) (some "execMode")
      ≡ some (string (job_exec_mode_map job.opts.exec_mode))
    → json_object_get_value (some (object fs)) (some "runMode")
      ≡ some (string (job_run_mode_map job.opts.run_mode))
    → decode_members fs job.id tasks [] ≡ decode_tasks tasks (empty_job job) []
unfolding decode_members job_create job_set_opts job_opts_default
decode_members-eq job fs tasks p i o e r = rw (to_int_of_IsInt job.id i) (
    rw (p, e, r)
      (rw (
        decode_exec_mode-map job.opts.exec_mode o.exec_known,
        decode_run_mode-map job.opts.run_mode o.run_known,
        ← o.full,
      )))

-- The job that the JSON form of a job says: every task is ready again.
abbrev pub restored : Job → Job
restored job = record job { status = JobStatus.ready; tasks = reset_tasks job.tasks }

with_tasks-empty :
    (job : Job) → IsWellFormed job → with_tasks (empty_job job) job.tasks ≡ restored job
with_tasks-empty job w = ground arith

job_decode-job_json :
    (job : Job)
    → IsWellFormed job
    → IsInt job.id
    → IsStandard job.opts
    → AllNamed job.tasks
    → job_decode (some (job_json job)) [] ≡ some (some (restored job), [])
unfolding job_decode decode_required json_object_get_value find_field
job_decode-job_json job w i o named =
    decode_members-eq job (whole_fields job) (task_items job.tasks) w.positive i o refl refl
    ∙ decode_tasks-eq job.tasks (empty_job job) (record { counted = refl; positive = w.positive })
        named
    ∙ ap (λ j. some (some j, [])) (with_tasks-empty job w)

-- A well-formed job whose id is an int, whose modes are of the enumerations and whose tasks all have
-- a name that is not empty survives the way through JSON where no allocation fails: `job_encode`
-- gives a value, and `job_decode` reads from it the same job with the status ready and every task
-- ready.
pub job_decode-job_encode :
    (api : JsonApi) (job : Job)
    → IsWellFormed job
    → IsInt job.id
    → IsStandard job.opts
    → AllNamed job.tasks
    → (j : Json) × (job_encode api job [] ≡ some (some j, []))
      × (job_decode (some j) [] ≡ some (some (restored job), []))
job_decode-job_encode api job w i o named =
    (job_json job, job_encode-eq api job, job_decode-job_json job w i o named)
