-- ===== src/Job/Runner/Loop/Samples.antt =====
-- blueprint/job.c: threads of jobs that are given.
use pyoneer.Prelude.{ℕ, zero, suc, ◌≡◌, refl, some, none, arith, [], ◌∷◌}
use pyoneer.Task
use pyoneer.Job.{ExecMode, JobStatus}
use pyoneer.Job.Runner.{
  finish_round, run_to_end, Launch, refused, launched, JobRun, sequential_round, parallel_round,
  job_loop, job_thread, job_thread_sequential, job_thread_parallel,
}
use pyoneer.Job.Runner.Rounds.{IsVerdict, run_once-IsVerdict}
use pyoneer.Job.Runner.Loop.{
  IsCounted, IsRepeating, job_thread-IsCounted, job_thread_parallel-eq-sequential,
  repeat_never_over,
}
use pyoneer.Job.Samples.{task_of, mixed_job, ready_job, repeat_job, run_of, child_at}

-- Every launch succeeds, or those before the third round.
abbrev all_launch : ℕ → ℕ → Launch
all_launch n k = launched (child_at k)

abbrev two_launch : ℕ → ℕ → Launch
two_launch zero k = launched (child_at k)
two_launch (suc zero) k = launched (child_at k)
two_launch (suc (suc n)) k = refused

run_once-IsVerdict_example :
    (r' : JobRun) × (job_thread_sequential 1 (λ n k. launched (child_at k)) (run_of ready_job)
      ≡ some r')
    × IsVerdict child_at (run_of ready_job) r'
run_once-IsVerdict_example =
    run_once-IsVerdict child_at 0 (run_of ready_job) (ground arith) (refl, (refl, tt))
      (ground arith) refl

started_run-IsCounted : IsCounted (run_of ready_job).info
started_run-IsCounted = record { successes_le = omega arith; completions_le = omega arith }

-- The job after its only round: the second child exits with 3.
abbrev ended_run : JobRun
ended_run = record {
  job = record ready_job {
    status = JobStatus.not_ready;
    tasks = task_of "a" Task.completed ∷ task_of "b" Task.not_ready ∷ [];
  };
  info = record { size = 24; attempts = 1; completions = 1; successes = 0 };
}

job_thread-IsCounted_example : IsCounted ended_run.info
unfolding job_thread job_loop parallel_round Task.task_get_status finish_round run_to_end
job_thread-IsCounted_example =
    job_thread-IsCounted ExecMode.parallel 1 all_launch (run_of ready_job) ended_run
      started_run-IsCounted refl

job_thread_parallel-eq-sequential_example :
    job_thread_parallel 3 all_launch (run_of mixed_job)
    ≡ job_thread_sequential 3 all_launch (run_of mixed_job)
job_thread_parallel-eq-sequential_example =
    job_thread_parallel-eq-sequential 3 all_launch (run_of mixed_job)

repeat_job-IsRepeating : IsRepeating repeat_job
repeat_job-IsRepeating = record { mode = refl; all = (refl, tt); filled = omega arith }

repeat_never_over_example : job_loop sequential_round 5 all_launch 0 (run_of repeat_job) ≡ none
repeat_never_over_example =
    repeat_never_over 5 all_launch (λ n k. child_at k) 0 (run_of repeat_job) repeat_job-IsRepeating
      (λ m. refl)
