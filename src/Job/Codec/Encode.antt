-- ===== src/Job/Codec/Encode.antt =====
-- blueprint/job.c: the JSON form of a job.
use pyoneer.Prelude.{◌≡◌, refl, ap, Option, none, some, String, List, [], ◌∷◌, arith}
use pyoneer.Json.Push.{add_string}
use pyoneer.Json.{
  Json, Items, nil, cons, Fields, end, field, object, array, string, integer, push_item, push_field,
}
use pyoneer.Json.Builder.{JsonApi}
use pyoneer.Json.Push.Plenty.{
  object_new_plenty, array_new_plenty, add_string_plenty, add_integer_plenty, push_entry_plenty,
  push_element_plenty,
}
use pyoneer.Task.{Task, task_encode}
use pyoneer.Job.{Job}
use pyoneer.Job.Codec.{job_exec_mode_map, job_run_mode_map, encode_tasks, job_encode}

abbrev pub head_fields : Job → Fields
head_fields job = field "id" (integer job.id) (
    field "execMode" (string (job_exec_mode_map job.opts.exec_mode))
      (field "runMode" (string (job_run_mode_map job.opts.run_mode)) end))

-- The JSON form of a task: `strdup` may have left it without a name.
abbrev pub named : Option String → Fields
named none = end
named (some n) = field "name" (string n) end

abbrev pub task_json : Task → Json
task_json task = object (named task.name)

abbrev pub task_items : List Task → Items
task_items [] = nil
task_items (task ∷ tasks) = cons (task_json task) (task_items tasks)

abbrev pub whole_fields : Job → Fields
whole_fields job = field "id" (integer job.id) (
    field "execMode" (string (job_exec_mode_map job.opts.exec_mode)) (
      field "runMode" (string (job_run_mode_map job.opts.run_mode))
        (field "tasks" (array (task_items job.tasks)) end)))

abbrev pub job_json : Job → Json
job_json job = object (whole_fields job)

abbrev pub append_items : Items → Items → Items
append_items nil ys = ys
append_items (cons x xs) ys = cons x (append_items xs ys)

pub append_items-push_item :
    (xs : Items) (v : Json) (ys : Items)
    → append_items (push_item xs v) ys ≡ append_items xs (cons v ys)
unfolding push_item
append_items-push_item nil v ys = refl
append_items-push_item (cons x xs) v ys = ap (cons x) (append_items-push_item xs v ys)

pub append_items-nil : (xs : Items) → append_items xs nil ≡ xs
append_items-nil nil = refl
append_items-nil (cons x xs) = ap (cons x) (append_items-nil xs)

module _ (api : JsonApi) where
  add_name-eq :
      (n : Option String)
      → add_string api (some (object end)) "name" n [] ≡ some (some (object (named n)), [])
  unfolding add_string
  add_name-eq none = refl
  add_name-eq (some n) = unfold push_field in add_string_plenty api end "name" n

  task_encode-eq : (task : Task) → task_encode api task [] ≡ some (some (task_json task), [])
  unfolding task_encode
  task_encode-eq task = ground (arith, object_new_plenty api, add_name-eq task.name)

  encode_tasks-eq :
      (tasks : List Task) (xs : Items)
      → encode_tasks api tasks (some (array xs)) []
        ≡ some (some (array (append_items xs (task_items tasks))), [])
  unfolding encode_tasks
  encode_tasks-eq [] xs = rw append_items-nil
  encode_tasks-eq (task ∷ tasks) xs = ground (
    arith,
    task_encode-eq task,
    push_element_plenty api xs (task_json task),
    encode_tasks-eq tasks (push_item xs (task_json task)),
    append_items-push_item xs (task_json task) (task_items tasks),
  )

  -- Where no allocation fails, `job_encode` gives the id, the two modes and the tasks in order.
  pub job_encode-eq : (job : Job) → job_encode api job [] ≡ some (some (job_json job), [])
  unfolding job_encode push_field
  job_encode-eq job = ground (
    arith,
    object_new_plenty api,
    add_integer_plenty api end "id" job.id,
    add_string_plenty api (field "id" (integer job.id) end) "execMode"
        (job_exec_mode_map job.opts.exec_mode),
    add_string_plenty api
        (field "id" (integer job.id)
          (field "execMode" (string (job_exec_mode_map job.opts.exec_mode)) end))
        "runMode" (job_run_mode_map job.opts.run_mode),
    array_new_plenty api,
    encode_tasks-eq job.tasks nil,
    push_entry_plenty api (head_fields job) "tasks" (array (task_items job.tasks)),
  )
