-- ===== src/Worker/Safety/Samples.antt =====
-- pyoneer/worker.c: a worker whose thread runs on its job.
use pyoneer.Prelude.{
  ℕ, zero, suc, ◌≡◌, ◌≢◌, inr, refl, ap, not, ◌&&◌, true, false, none, some, arith,
}
use mathlib.Core.Path.{subst}
use pyoneer.Prelude.Int.{pos}
use pyoneer.Job.{job_get_status}
use pyoneer.Job.Samples.{mixed_job, ready_job}
use pyoneer.Engine.{Store, ThreadState, running, gone, can_run, Answers, engine_run, job_run}
use pyoneer.Worker.{
  Worker, WorkerStatus, is_working, update_status, status_of_job, run_locked, assign_locked,
}
use pyoneer.Worker.Watch.{IsSafe, IsWatched, IsNumbered}
use pyoneer.Worker.Status.{IsReading, update_status-IsReading}
use pyoneer.Worker.Busy.{IsBusy, busy_refuses}
use pyoneer.Worker.Safety.Taken.{RunLeaves, run_locked_takes}
use pyoneer.Worker.Safety.{run_locked-IsSafe, assign_locked-IsSafe, assign_locked_unsafe}

-- Job 1 has a task that is running; those behind it are ready.
abbrev stored_jobs : Store
stored_jobs zero = none
stored_jobs (suc zero) = some mixed_job
stored_jobs (suc (suc a)) = some ready_job

abbrev pub answers : Answers
answers = record { allocated = true; created = true; locked = true; site = true; halted = λ ts. ts }

-- The thread 0 runs on a job.
abbrev one_thread : ℕ → ℕ → ThreadState
one_thread a zero = running a
one_thread a (suc t) = gone

abbrev pub holder : ℕ → Worker
holder a = record {
  id = pos 2;
  status = WorkerStatus.assigned;
  job = some a;
  engine = record {
    runner = some (record { job = a; thread = 0 });
    jobs = stored_jobs;
    threads = one_thread a;
    next_thread = 1;
    undefined = false;
  };
}

pub held-IsBusy : IsBusy (holder 1) 1 mixed_job
unfolding job_get_status
held-IsBusy = record { holds = refl; stored = refl; runs = refl }

busy_refuses_example :
    (run_locked answers 2 (holder 1) ≡ (false, update_status (holder 1)))
    × (assign_locked 2 (holder 1) ≡ (false, update_status (holder 1)))
    × ((update_status (holder 1)).job ≡ some 1)
    × ((update_status (holder 1)).engine.runner ≡ (holder 1).engine.runner)
    × ((update_status (holder 1)).engine.jobs 5 ≡ (holder 1).engine.jobs 5)
busy_refuses_example = busy_refuses answers 2 (holder 1) 1 mixed_job 5 held-IsBusy (ground arith)

update_status-IsReading_example : IsReading (update_status (holder 1)).status mixed_job
update_status-IsReading_example =
    update_status-IsReading (holder 1) 1 mixed_job refl refl (ground arith)

same_running : (a c : ℕ) → running a ≡ running c → a ≡ c
same_running a c e = ground arith

stored-holder : (a : ℕ) → stored_jobs (suc a) ≢ none
stored-holder zero = ground arith
stored-holder (suc a) = ground arith

held-IsSafe : (a : ℕ) → IsSafe (holder (suc a))
held-IsSafe a zero c runs =
    subst (λ b. stored_jobs b ≢ none) (same_running (suc a) c runs) (stored-holder a)
held-IsSafe a (suc t) c runs = absurd (ground (arith, runs))

held-IsWatched : (a : ℕ) → IsWatched (holder a).engine
held-IsWatched a zero c runs =
    ap (λ b. some (record { job = b; thread = 0 })) (same_running a c runs)
held-IsWatched a (suc t) c runs = absurd (ground (arith, runs))

held-IsNumbered : (a : ℕ) → IsNumbered (holder a).engine
held-IsNumbered a r held = ground (arith, held)

run_locked-IsSafe_example :
    IsSafe (run_locked answers 3 (holder 2)).1
    × IsWatched (run_locked answers 3 (holder 2)).1.engine
run_locked-IsSafe_example =
    run_locked-IsSafe answers 3 (holder 2) (held-IsSafe 1) (held-IsWatched 2) (ground arith)

run_locked_takes_example :
    ((run_locked answers 3 (holder 2)).0
      ≡ not (is_working (update_status (holder 2)).status) && can_run answers ready_job)
    × RunLeaves 3 2 (holder 2) (run_locked answers 3 (holder 2))
run_locked_takes_example =
    run_locked_takes answers 3 2 ready_job (holder 2) refl (ground arith) refl (held-IsWatched 2)
      (held-IsNumbered 2)

taken : (run_locked answers 3 (holder 2)).0 ≡ true
unfolding run_locked update_status status_of_job job_get_status engine_run job_run
taken = refl

held_working : (update_status (holder 1)).status ≡ WorkerStatus.working
unfolding update_status status_of_job job_get_status
held_working = refl

held_idle : (update_status (holder 2)).status ≢ WorkerStatus.working
unfolding update_status status_of_job job_get_status
held_idle = ground arith

assign_locked-IsSafe_example : IsSafe (assign_locked 3 (holder 1)).1
assign_locked-IsSafe_example = assign_locked-IsSafe 3 (holder 1) (held-IsSafe 0) (inr held_working)

assign_locked_unsafe_example :
    ((assign_locked 3 (holder 2)).0 ≡ true)
    × ((assign_locked 3 (holder 2)).1.engine.jobs 2 ≡ none)
    × (¬ IsSafe (assign_locked 3 (holder 2)).1)
assign_locked_unsafe_example = assign_locked_unsafe 3 2 0 (holder 2) refl refl held_idle
