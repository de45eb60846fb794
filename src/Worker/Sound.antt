-- ===== src/Worker/Sound.antt =====
-- pyoneer/worker.c: what holds of a worker that is given its jobs by `worker_run` alone.
pub mod Signals
pub mod Replies
use pyoneer.Prelude.{
  ℕ, ◌≡◌, ◌≢◌, ◌⊎◌, inl, inr, refl, sym, ap, ◌∙◌, Bool, true, false, Option, none, some, arith,
  ◌==◌, Bool-cases, Option-cases, if◌then◌else◌,
}
use pyoneer.Memory.{Supply, Run, pure, Ends, Ends-bind, Ends-after, ◌>>=◌, deref, call}
use pyoneer.Json.{Json}
use pyoneer.Prelude.Int.{ℤ}
use pyoneer.Json.Builder.{JsonApi}
use pyoneer.Json.Push.{push_entry, add_integer}
use pyoneer.Job.{Job, JobStatus, job_get_id}
use pyoneer.Job.Codec.{job_encode_status}
use pyoneer.Engine.{
  Store, write, ThreadState, running, gone, Runner, Answers, Engine, job_run, job_runner_stop,
  engine_run, engine_stop, engine_restart,
}
use pyoneer.Worker.{
  worker_create, Worker, WorkerStatus, status_of_job, read_job, update_status, run_locked,
  worker_stop, worker_start, worker_restart, start_job, restart_from, start_from, is_working,
}
use pyoneer.Worker.Commands.{worker_status_map, push_job, get_status, worker_get_status, worker_run}
use pyoneer.Worker.Safety.{some_eq, run_locked-cases, taken_stored}
use pyoneer.Worker.Watch.{
  IsSafe, IsWatched, update_status-keeps, update_status-stored, update_status-IsWatched,
  engine_run-Started, Started-IsWatched,
}

-- The job of the worker has not been freed; the runner of its engine, if there is one, is of that
-- job; and no thread runs but that of the runner.
pub record IsSound (w : Worker) : Type 0 where
  pub held : (a : ℕ) → w.job ≡ some a → w.engine.jobs a ≢ none
  pub paired : (r : Runner) → w.engine.runner ≡ some r → w.job ≡ some r.job
  pub watched : IsWatched w.engine

pub IsSound-IsSafe : (w : Worker) → IsSound w → IsSafe w
IsSound-IsSafe w sound t c runs = sound.held c (sound.paired _ (sound.watched t c runs))

-- The same job, runner and threads, in a store where nothing was freed.
record Keeps (w w' : Worker) : Type 0 where
  job : w'.job ≡ w.job
  runner : w'.engine.runner ≡ w.engine.runner
  threads : w'.engine.threads ≡ w.engine.threads
  stored : (a : ℕ) → w.engine.jobs a ≢ none → w'.engine.jobs a ≢ none

Keeps-IsSound : (w w' : Worker) → Keeps w w' → IsSound w → IsSound w'
Keeps-IsSound w w' keeps sound = record {
  held = λ a e. keeps.stored a (sound.held a (sym keeps.job ∙ e));
  paired = λ r e. keeps.job ∙ sound.paired r (sym keeps.runner ∙ e);
  watched = λ t c runs.
      keeps.runner ∙ sound.watched t c (ap (λ threads. threads t) (sym keeps.threads) ∙ runs);
}

update_status-Keeps : (w : Worker) → Keeps w (update_status w)
update_status-Keeps w = record {
  job = (update_status-keeps w).0;
  runner = (update_status-keeps w).1;
  threads = (update_status-keeps w).2;
  stored = update_status-stored w;
}

pub update_status-IsSound : (w : Worker) → IsSound w → IsSound (update_status w)
update_status-IsSound w = Keeps-IsSound w (update_status w) (update_status-Keeps w)

-- A job that is written keeps it.
pub write-IsSound :
    (w : Worker) (a : ℕ) (job : Job)
    → IsSound w
    → IsSound (record w { engine = record w.engine { jobs = write w.engine.jobs a (some job) } })
write-IsSound w a job sound =
    Keeps-IsSound w _
      (record { job = refl; runner = refl; threads = refl; stored = λ b h. ground arith }) sound

pub paired_job :
    (a : ℕ) (r : Runner) (o : Option Runner) (t : ℕ)
    → o ≡ some (record { job = a; thread = t })
    → o ≡ some r
    → some a ≡ some r.job
paired_job a r o t e same = ground arith

pub run_locked-IsSound :
    (ans : Answers) (a : ℕ) (w : Worker)
    → w.job ≢ some a
    → IsSound w
    → IsSound (run_locked ans a w).1
run_locked-IsSound ans a w fresh sound = elim (run_locked-cases ans a w) [
  | inl e ↦ rw e (update_status-IsSound w sound)
  | inr (e', started, e) ↦ rw e (record {
    held = λ b same. rw (sym (some_eq a b same)) (taken_stored ans a w e' fresh started);
    paired = λ r same.
        paired_job a r e'.runner _
          (engine_run-Started ans a (update_status w).engine e' started).runner same;
    watched =
        Started-IsWatched a (update_status w).engine e'
          (engine_run-Started ans a (update_status w).engine e' started)
          (update_status-IsWatched w sound.watched);
  })
]

worker_create-empty :
    (id : ℤ) (allocated inited : Bool) (jobs : Store) (w : Worker)
    → worker_create id allocated inited jobs ≡ some w
    → (w.job ≡ none) × (w.engine.runner ≡ none) × ((t : ℕ) → w.engine.threads t ≡ gone)
unfolding worker_create
worker_create-empty id allocated inited jobs w e = (ground arith, ground arith, λ t. ground arith)

pub worker_create-IsSound :
    (id : ℤ) (allocated inited : Bool) (jobs : Store) (w : Worker)
    → worker_create id allocated inited jobs ≡ some w
    → IsSound w
worker_create-IsSound id allocated inited jobs w e =
    let (unassigned, idle, none_run) = worker_create-empty id allocated inited jobs w e in
    record {
      held = λ a same. cc;
      paired = λ r same. cc;
      watched = λ t c runs. absurd (ground (arith, none_run t, runs));
    }
