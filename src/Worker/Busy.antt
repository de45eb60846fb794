-- ===== src/Worker/Busy.antt =====
-- pyoneer/worker.c: a worker whose job has a task that runs.
use pyoneer.Prelude.{ℕ, ◌≡◌, ◌≢◌, refl, false, some, arith}
use pyoneer.Job.{Job, JobStatus, job_get_status}
use pyoneer.Engine.{Answers, write}
use pyoneer.Worker.{Worker, WorkerStatus, status_of_job, update_status, run_locked, assign_locked}

-- The worker holds a job that can be read, and a task of it runs.
pub record IsBusy (w : Worker) (a : ℕ) (job : Job) : Type 0 where
  pub holds : w.job ≡ some a
  pub stored : w.engine.jobs a ≡ some job
  pub runs : (job_get_status job).1 ≡ JobStatus.running

-- The worker once it has read the status of its job.
abbrev pub read_worker : Worker → ℕ → Job → Worker
read_worker w a job = record w {
  status = status_of_job w.status (job_get_status job).1;
  engine = record w.engine { jobs = write w.engine.jobs a (some (job_get_status job).0) };
}

pub update_status-read :
    (w : Worker) (a : ℕ) (job : Job)
    → w.job ≡ some a
    → w.engine.jobs a ≡ some job
    → update_status w ≡ read_worker w a job
unfolding update_status
update_status-read w a job e f = ground arith

busy-update :
    (w : Worker) (a : ℕ) (job : Job)
    → IsBusy w a job
    → ((update_status w).status ≡ WorkerStatus.working)
      × ((update_status w).job ≡ some a)
      × ((update_status w).engine.runner ≡ w.engine.runner)
      × ((c : ℕ) → c ≢ a → (update_status w).engine.jobs c ≡ w.engine.jobs c)
unfolding status_of_job
busy-update w a job busy =
    rw (update_status-read w a job busy.holds busy.stored)
      (rw (busy.runs), busy.holds, refl, λ c h. ground arith)

-- A worker whose job has a running task refuses a run and an assignment alike: the job that it is
-- given is not taken, and its own job, its runner and every other job in the store stay.
pub busy_refuses :
    (ans : Answers) (b : ℕ) (w : Worker) (a : ℕ) (job : Job) (c : ℕ)
    → IsBusy w a job
    → c ≢ a
    → (run_locked ans b w ≡ (false, update_status w))
      × (assign_locked b w ≡ (false, update_status w))
      × ((update_status w).job ≡ some a)
      × ((update_status w).engine.runner ≡ w.engine.runner)
      × ((update_status w).engine.jobs c ≡ w.engine.jobs c)
unfolding run_locked assign_locked
busy_refuses ans b w a job c busy other =
    let (working, holds, runner, rest) = busy-update w a job busy in
    (rw working, rw working, holds, runner, rest c other)
