-- ===== src/Engine.antt =====
-- pyoneer/engine.c, and the part of blueprint/job.c that starts and stops the thread of a job. Jobs
-- stand in a store, since the worker, the runner and the runner's thread share them: an address with
-- no job has been freed, or was never given out.
pub mod Threads
use pyoneer.Prelude.{
  ℕ, ◌+◌, Bool, true, false, not, ◌&&◌, ◌||◌, Option, none, some, List, ◌==◌, if◌then◌else◌,
}
use pyoneer.Task.{Task}
use pyoneer.Job.{Job, ExecMode}

abbrev pub Store : Type 0
Store = ℕ → Option Job

abbrev pub write : Store → ℕ → Option Job → Store
write jobs a v b = if a == b then v else jobs b

-- A thread that `job_thread_create` started: it runs on the job at an address; it is over, and not
-- joined; or there is none, since it was joined or never started.
pub data ThreadState : Type 0 where
  running : ℕ → ThreadState
  over gone : ThreadState

abbrev pub set_thread : (ℕ → ThreadState) → ℕ → ThreadState → ℕ → ThreadState
set_thread threads t v u = if t == u then v else threads u

-- A `JobRunner`: the job that it points to, and its `job_tid`.
pub record Runner : Type 0 where
  pub job : ℕ
  pub thread : ℕ

-- What the system answers in one operation: `malloc`, `pthread_create`, the lock; and what the
-- handlers of a cancelled thread leave of its tasks.
pub record Answers : Type 0 where
  pub allocated : Bool
  pub created : Bool
  pub locked : Bool
  pub site : Bool
  pub halted : List Task → List Task

-- `engine->job_runner`, with what it shares with others: the store, all threads that were started,
-- also those that no runner points to any more, and the number of the next. `undefined` says that a call
-- had undefined behaviour: what the model does from there on means nothing.
pub record Engine : Type 0 where
  pub runner : Option Runner
  pub jobs : Store
  pub threads : ℕ → ThreadState
  pub next_thread : ℕ
  pub undefined : Bool

unfoldable pub job_thread_create : Answers → Job → Bool
job_thread_create ans job = elim job.opts.exec_mode [
  | ExecMode.parallel ↦ ans.created
  | ExecMode.sequential ↦ ans.created
  | ExecMode.other ↦ false
]

-- `pthread_create` that succeeds.
abbrev pub start_thread : ℕ → Engine → Engine
start_thread a e = record e {
  threads = set_thread e.threads e.next_thread (running a);
  next_thread = e.next_thread + 1;
}

unfoldable pub can_run : Answers → Job → Bool
unfolding job_thread_create
can_run ans job = ans.site && not (job.size == 0) && ans.allocated && job_thread_create ans job

unfoldable pub job_run : Answers → ℕ → Job → Engine → Option (Runner × Engine)
unfolding can_run
job_run ans a job e =
    if can_run ans job
    then some (record { job = a; thread = e.next_thread }, start_thread a e)
    else none

-- The handlers of a cancelled thread leave the tasks of its job so.
halt_tasks : Answers → Option Job → Option Job
halt_tasks ans none = none
halt_tasks ans (some job) = some (record job { tasks = ans.halted job.tasks })

-- The thread is cancelled and joined. One that is over has left its tasks as they are; one that was
-- joined before is none to cancel.
unfoldable pub job_runner_stop : Answers → Runner → Engine → Engine
unfolding halt_tasks
job_runner_stop ans r e = elim (e.threads r.thread) [
  | running a ↦ record e {
    jobs = write e.jobs a (halt_tasks ans (e.jobs a));
    threads = set_thread e.threads r.thread gone;
  }
  | over ↦ record e { threads = set_thread e.threads r.thread gone }
  | gone ↦ record e { undefined = true }
]

unfoldable pub engine_create : Store → Engine
engine_create jobs = record {
  runner = none;
  jobs = jobs;
  threads = λ t. gone;
  next_thread = 0;
  undefined = false;
}

unfoldable pub engine_stop : Answers → Engine → Engine
unfolding job_runner_stop
engine_stop ans e = elim e.runner [ none ↦ e | some r ↦ job_runner_stop ans r e ]

-- The thread of a runner is created again, if its job can be read. A thread that cannot be created leaves the
-- runner with the one that was joined.
unfoldable pub run_again : Answers → Runner → Engine → Engine
run_again ans r e = elim (e.jobs r.job) [
  | none ↦ record e { undefined = true }
  | some job ↦
      if job_thread_create ans job
      then record (start_thread r.job e) { runner = some (record r { thread = e.next_thread }) }
      else e
]

-- With `job_runner_restart`.
unfoldable pub engine_restart : Answers → Engine → Engine
unfolding job_runner_stop run_again
engine_restart ans e = elim e.runner [
  | none ↦ e
  | some r ↦ run_again ans r (job_runner_stop ans r e)
]

-- The runner may be NULL.
unfoldable pub job_runner_destroy : Answers → Option Runner → Engine → Engine
unfolding job_runner_stop
job_runner_destroy ans none e = e
job_runner_destroy ans (some r) e = job_runner_stop ans r e

-- The old runner is destroyed after the new one has started.
unfoldable pub engine_run : Answers → ℕ → Engine → Option Engine
unfolding job_run job_runner_destroy
engine_run ans a e = elim (e.jobs a) [
  | none ↦ none
  | some job ↦ elim (job_run ans a job e) [
    | none ↦ none
    | some (r, started) ↦
        some (record (job_runner_destroy ans e.runner started) { runner = some r })
  ]
]

unfoldable pub engine_destroy : Answers → Engine → Engine
unfolding engine_stop
engine_destroy ans e = record (engine_stop ans e) { runner = none }
