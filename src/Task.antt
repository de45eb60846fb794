-- ===== src/Task.antt =====
-- blueprint/task.h and task.c: a task, its status, and its JSON form.
mod Names
pub mod Runner
pub use Names.*
use pyoneer.Prelude.{String, Option, none, some, Bool, str_eq, if◌then◌else◌}
use pyoneer.Memory.{Run, pure, call, malloc, ◌>>=◌}
use pyoneer.Json.{Json, object, string, find_field, json_object_get_value}
use pyoneer.Json.Builder.{JsonApi}
use pyoneer.Json.Push.{add_string, push_entry, json_object_push_string}

-- `struct Task`. The name is NULL where `strdup` failed.
pub record Task : Type 0 where
  pub status : Status
  pub name : Option String

-- `strdup`
abbrev pub strdup : String → Run (Option String)
strdup t = do ok ← malloc; pure (if ok then some t else none)

unfoldable pub task_create : String → Run (Option Task)
task_create name = if str_eq name "" then pure none else do
  ok ← malloc
  if ok
      then (do copy ← strdup name; pure (some (record { status = ready; name = copy })))
      else pure none

-- A NULL task has the empty name.
unfoldable pub task_get_name : Option Task → Option String
task_get_name none = some ""
task_get_name (some task) = task.name

unfoldable pub task_get_status : Task → Status
task_get_status task = task.status

unfoldable pub task_set_status : Task → Status → Task
task_set_status task status = record task { status = status }

unfoldable pub decode_name : Option Json → Run (Option Task)
unfolding task_create
decode_name (some (string s)) = task_create s
decode_name v = pure none

unfoldable pub task_decode : Option Json → Run (Option Task)
unfolding decode_name json_object_get_value
task_decode none = pure none
task_decode (some (object fs)) =
    decode_name (json_object_get_value (some (object fs)) (some "name"))
task_decode (some v) = pure none

module _ (api : JsonApi) where
  unfoldable pub task_status_map : Status → Run (Option Json)
  task_status_map not_ready = call (api.string_new "not_ready")
  task_status_map ready = call (api.string_new "ready")
  task_status_map running = call (api.string_new "running")
  task_status_map completed = call (api.string_new "completed")
  task_status_map incomplete = call (api.string_new "incomplete")
  task_status_map other = call api.null_new

  unfoldable pub task_encode : Task → Run (Option Json)
  task_encode task = do
    obj ← call api.object_new
    elim obj [ none ↦ pure none | some o ↦ add_string api (some o) "name" task.name ]

  unfoldable pub task_encode_status : Task → Run (Option Json)
  unfolding task_status_map task_get_status
  task_encode_status task = do
    obj ← call api.object_new
    elim obj [
      | none ↦ pure none
      | some o ↦ do
        status ← task_status_map (task_get_status task)
        push_entry api (some o) "status" status
    ]
