-- ===== src/Pyoneer.antt =====
-- pyoneer/pyoneer.c and blueprint/blueprint.c: the facade that the client handler calls. A blueprint
-- that is a job is the job; its address in the store is chosen by the allocator, an input.
mod Names
pub use Names.*
use pyoneer.Prelude.{ℕ, Bool, true, false, Option, none, some, if◌then◌else◌}
use pyoneer.Prelude.Int.{ℤ}
use pyoneer.Memory.{Run, pure, fault, malloc, deref, ◌>>=◌}
use pyoneer.Json.{Json, object, json_object_get_value}
use pyoneer.Json.Builder.{JsonApi}
use pyoneer.Json.Push.{add_string, add_integer}
use pyoneer.Job.{Job}
use pyoneer.Job.Codec.{job_decode}
use pyoneer.Engine.{Store, write, Answers, Engine}
use pyoneer.Worker.{
  Worker, worker_create, worker_destroy, worker_get_id, worker_restart, worker_start, worker_stop,
}
use pyoneer.Worker.Commands.{worker_get_status, worker_run, worker_assign}

unfoldable pub blueprint_decode : BlueprintKind → Option Json → Run (Option Job)
blueprint_decode blueprint_job obj = do ok ← malloc; if ok then job_decode obj else pure none
blueprint_decode blueprint_other obj = pure none

-- `struct Pyoneer`: with the role of a worker, which may be NULL; or with no member set, as every
-- other role leaves it.
pub data Pyoneer : Type 0 where
  of_worker : Option Worker → Pyoneer
  unset : Pyoneer

-- `malloc` gives the pyoneer; the other two answers are for `worker_create`.
unfoldable pub pyoneer_create : Role → ℤ → Bool → Bool → Bool → Store → Option Pyoneer
pyoneer_create role id ok allocated inited jobs =
    if ok
    then elim role [
      | pyoneer_worker ↦ some (of_worker (worker_create id allocated inited jobs))
      | pyoneer_manager ↦ some unset
      | role_other ↦ some unset
    ]
    else none

-- What is left of the engine. The `switch` on a role that is not set frees no worker.
unfoldable pub pyoneer_destroy : Answers → Pyoneer → Option Engine
pyoneer_destroy ans (of_worker (some w)) = some (worker_destroy ans w)
pyoneer_destroy ans _ = none

-- A command reads members of the worker; a pyoneer that is not set has no command to call.
unfoldable pub worker_of : Pyoneer → Run Worker
worker_of (of_worker w) = deref w
worker_of unset = fault

unfoldable pub decode_job : Option Json → Run (Option Job)
unfolding blueprint_decode
decode_job none = pure none
decode_job (some obj) = blueprint_decode blueprint_job (some obj)

-- The role that is read from a pyoneer that is not set is undefined.
unfoldable pub pyoneer_blueprint_decode : Pyoneer → Option Json → Run (Option Job)
unfolding decode_job
pyoneer_blueprint_decode (of_worker w) (some (object fs)) =
    decode_job (json_object_get_value (some (object fs)) (some "job"))
pyoneer_blueprint_decode unset (some (object fs)) = fault
pyoneer_blueprint_decode p val = pure none

-- A decoded job stands at the address that it got.
abbrev pub store_job : ℕ → Job → Worker → Worker
store_job a job w = record w {
  engine = record w.engine { jobs = write w.engine.jobs a (some job) };
}

module _ (api : JsonApi) where
  -- The entries that the wrappers add to the reply of a worker, which may be NULL.
  unfoldable pub add_role : Worker → Option Json → Run (Option Json)
  unfolding worker_get_id
  add_role w status = do
    status' ← add_string api status "role" (some "worker")
    add_integer api status' "id" (worker_get_id w)

  unfoldable pub pyoneer_worker_get_status : Answers → Pyoneer → Run (Option Json × Pyoneer)
  unfolding worker_of add_role
  pyoneer_worker_get_status ans p = do
    w ← worker_of p
    (status, w') ← worker_get_status api ans w
    status' ← add_role w' status
    pure (status', of_worker (some w'))

  -- `blueprint->as.job` is the job at `a`, which `pyoneer_blueprint_decode` gave.
  unfoldable pub pyoneer_run_job : Answers → ℕ → Job → Pyoneer → Run (Option Json × Pyoneer)
  unfolding worker_of add_role
  pyoneer_run_job ans a job p = do
    w ← worker_of p
    (status, w') ← worker_run api ans (some a) (store_job a job w)
    status' ← add_role w' status
    pure (status', of_worker (some w'))

  unfoldable pub pyoneer_assign_job : Answers → ℕ → Job → Pyoneer → Run (Option Json × Pyoneer)
  unfolding worker_of add_role
  pyoneer_assign_job ans a job p = do
    w ← worker_of p
    (status, w') ← worker_assign api ans (some a) (store_job a job w)
    status' ← add_role w' status
    pure (status', of_worker (some w'))

unfoldable pub pyoneer_worker_restart : Answers → Pyoneer → Run Pyoneer
unfolding worker_of
pyoneer_worker_restart ans p = do w ← worker_of p; pure (of_worker (some (worker_restart ans w)))

unfoldable pub pyoneer_worker_start : Answers → Pyoneer → Run Pyoneer
unfolding worker_of
pyoneer_worker_start ans p = do w ← worker_of p; pure (of_worker (some (worker_start ans w)))

unfoldable pub pyoneer_worker_stop : Answers → Pyoneer → Run Pyoneer
unfolding worker_of
pyoneer_worker_stop ans p = do w ← worker_of p; pure (of_worker (some (worker_stop ans w)))
