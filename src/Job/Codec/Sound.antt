-- ===== src/Job/Codec/Sound.antt =====
-- blueprint/job.c: `job_decode` on any value and with any allocator.
use pyoneer.Prelude.{
  ◌≡◌, ◌≢◌, refl, inl, inr, true, false, Option, none, some, String, List, [], ◌∷◌, ◌++◌, arith,
  Bool-cases, if◌then◌else◌,
}
use pyoneer.Prelude.Int.{ℤ, le_zero, IsInt, to_int, to_int-IsInt}
use pyoneer.Memory.{Supply, pure, malloc, ◌>>=◌, Gives, Gives-bind}
use pyoneer.Json.{
  Json, Items, nil, cons, Fields, object, array, integer, string, json_object_get_value,
}
use pyoneer.Task
use pyoneer.Task.{Task, task_create, decode_name, task_decode}
use pyoneer.Job.{
  Job, JobStatus, JobOpts, ExecMode, RunMode, append_task, job_add_task, job_create, job_set_opts,
  job_opts_default,
}
use pyoneer.Job.Codec.{
  decode_tasks, decode_members, decode_required, job_decode, decode_exec_mode, decode_run_mode,
}
use pyoneer.Job.Codec.Decode.{IsStandard}
use pyoneer.Job.Invariant.{IsWellFormed, append_task-eq, append_task-IsWellFormed}

task_create-IsReady :
    (name : String) (s : Supply) → Gives (λ t. t.status ≡ Task.ready) (task_create name s)
unfolding task_create
task_create-IsReady name [] = ground arith
task_create-IsReady name (a ∷ []) = ground arith
task_create-IsReady name (a ∷ b ∷ s) = ground arith

decode_name-IsReady :
    (v : Option Json) (s : Supply) → Gives (λ t. t.status ≡ Task.ready) (decode_name v s)
unfolding decode_name
decode_name-IsReady (some (string t)) s = task_create-IsReady t s
decode_name-IsReady none s = tt
decode_name-IsReady _ s = tt

task_decode-IsReady :
    (v : Option Json) (s : Supply) → Gives (λ t. t.status ≡ Task.ready) (task_decode v s)
unfolding task_decode
task_decode-IsReady (some (object fs)) s =
    decode_name-IsReady (json_object_get_value (some (object fs)) (some "name")) s
task_decode-IsReady none s = tt
task_decode-IsReady _ s = tt

abbrev pub AllReady : List Task → Type 0
AllReady [] = Unit
AllReady (task ∷ tasks) = (task.status ≡ Task.ready) × AllReady tasks

AllReady-snoc :
    (tasks : List Task) (task : Task)
    → AllReady tasks
    → task.status ≡ Task.ready
    → AllReady (tasks ++ task ∷ [])
AllReady-snoc [] task all e = (e, tt)
AllReady-snoc (t ∷ tasks) task all e = (all.0, AllReady-snoc tasks task all.1 e)

-- A job that has not run: every task and the job itself are ready.
pub record IsFresh (job : Job) : Type 0 where
  pub formed : IsWellFormed job
  pub id_fits : IsInt job.id
  pub standard : IsStandard job.opts
  pub ready : job.status ≡ JobStatus.ready
  pub tasks_ready : AllReady job.tasks

append_task-IsFresh :
    (job : Job) (task : Task)
    → IsFresh job
    → task.status ≡ Task.ready
    → IsFresh (append_task job task)
append_task-IsFresh job task f e = record {
  formed = append_task-IsWellFormed job task f.formed;
  id_fits = rw (append_task-eq job task f.formed) f.id_fits;
  standard = rw (append_task-eq job task f.formed) f.standard;
  ready = rw (append_task-eq job task f.formed) f.ready;
  tasks_ready =
      rw (append_task-eq job task f.formed) (AllReady-snoc job.tasks task f.tasks_ready e);
}

added-IsFresh :
    (vs : Items) (job : Job) (task : Task) (s : Supply)
    → ((s' : Supply) → Gives IsFresh (decode_tasks vs (append_task job task) s'))
    → Gives IsFresh
        ((job_add_task job task >>= λ r. if r.0 then decode_tasks vs r.1 else pure none) s)
unfolding job_add_task
added-IsFresh vs job task [] rest = rest []
added-IsFresh vs job task (true ∷ s) rest = rest s
added-IsFresh vs job task (false ∷ s) rest = tt

decode_tasks-IsFresh :
    (vs : Items) (job : Job) (s : Supply) → IsFresh job → Gives IsFresh (decode_tasks vs job s)
unfolding decode_tasks
decode_tasks-IsFresh nil job s f = f
decode_tasks-IsFresh (cons v vs) job s f =
    Gives-bind (λ t. t.status ≡ Task.ready) IsFresh (task_decode (some v)) _ s
      (task_decode-IsReady (some v) s) (λ s'. tt)
      λ task s' e. added-IsFresh vs job task s' (λ s''.
        decode_tasks-IsFresh vs (append_task job task) s'' (append_task-IsFresh job task f e))

set_opts-IsFresh :
    (job : Job) (opts : JobOpts)
    → IsFresh job
    → IsStandard opts
    → IsFresh (job_set_opts job (some opts))
unfolding job_set_opts job_opts_default
set_opts-IsFresh job opts f o = record {
  formed = ground arith;
  id_fits = f.id_fits;
  standard = ground arith;
  ready = f.ready;
  tasks_ready = f.tasks_ready;
}

new_job-IsFresh :
    (id : ℤ)
    → IsInt id
    → le_zero id ≡ false
    → IsFresh (record {
      id = id;
      status = JobStatus.ready;
      size = 0;
      opts = job_opts_default;
      tasks = [];
    })
unfolding job_opts_default
new_job-IsFresh id i p = record {
  formed = record { counted = refl; positive = p };
  id_fits = i;
  standard = record { full = refl; exec_known = λ e. cc; run_known = λ e. cc };
  ready = refl;
  tasks_ready = tt;
}

job_create-IsFresh : (id : ℤ) (s : Supply) → IsInt id → Gives IsFresh (job_create id s)
unfolding job_create
job_create-IsFresh id s i = elim (Bool-cases (le_zero id)) [
  | inl e ↦ rw e tt
  | inr e ↦ rw e (allocated s e)
]
  where
    allocated :
        (s : Supply)
        → le_zero id ≡ false
        → Gives IsFresh (
            (malloc >>= λ ok. pure (
                if ok
                then some (record {
                  id = id;
                  status = JobStatus.ready;
                  size = 0;
                  opts = job_opts_default;
                  tasks = [];
                })
                else none))
              s)
    allocated [] e = new_job-IsFresh id i e
    allocated (true ∷ s) e = new_job-IsFresh id i e
    allocated (false ∷ s) e = tt

decode_exec_mode-known : (v : Option Json) → decode_exec_mode v ExecMode.sequential ≢ ExecMode.other
unfolding decode_exec_mode
decode_exec_mode-known (some (string t)) = ground arith
decode_exec_mode-known none = ground arith
decode_exec_mode-known _ = ground arith

decode_run_mode-known : (v : Option Json) → decode_run_mode v RunMode.once ≢ RunMode.other
unfolding decode_run_mode
decode_run_mode-known (some (string t)) = ground arith
decode_run_mode-known none = ground arith
decode_run_mode-known _ = ground arith

decode_modes-IsStandard :
    (e r : Option Json)
    → IsStandard (record job_opts_default {
      exec_mode = decode_exec_mode e job_opts_default.exec_mode;
      run_mode = decode_run_mode r job_opts_default.run_mode;
    })
unfolding job_opts_default
decode_modes-IsStandard e r = record {
  full = refl;
  exec_known = decode_exec_mode-known e;
  run_known = decode_run_mode-known r;
}

decode_members-IsFresh :
    (fs : Fields) (id : ℤ) (tasks : Items) (s : Supply)
    → Gives IsFresh (decode_members fs id tasks s)
unfolding decode_members
decode_members-IsFresh fs id tasks s =
    Gives-bind IsFresh IsFresh (job_create (to_int id)) _ s
      (job_create-IsFresh (to_int id) s (to_int-IsInt id)) (λ s'. tt)
      λ job s' f.
        decode_tasks-IsFresh tasks (job_set_opts job _) s'
          (set_opts-IsFresh job _ f (decode_modes-IsStandard _ _))

decode_required-IsFresh :
    (fs : Fields) (id tasks : Option Json) (s : Supply)
    → Gives IsFresh (decode_required fs id tasks s)
unfolding decode_required
decode_required-IsFresh fs (some (integer id)) (some (array tasks)) s =
    decode_members-IsFresh fs id tasks s
decode_required-IsFresh fs _ _ s = tt

-- Whatever the JSON value and whatever allocations fail, `job_decode` does not fault: it gives NULL,
-- or a job that is well formed, with an int for its id, options of the enumerations, and the job
-- and all its tasks ready.
pub job_decode-IsFresh : (v : Option Json) (s : Supply) → Gives IsFresh (job_decode v s)
unfolding job_decode
job_decode-IsFresh (some (object fs)) s =
    decode_required-IsFresh fs (json_object_get_value (some (object fs)) (some "id"))
      (json_object_get_value (some (object fs)) (some "tasks")) s
job_decode-IsFresh none s = tt
job_decode-IsFresh _ s = tt
