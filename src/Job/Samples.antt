-- ===== src/Job/Samples.antt =====
-- blueprint/job.c: jobs and children for the tests of the modules about jobs.
use pyoneer.Prelude.{ℕ, zero, suc, some, List, [], ◌∷◌, String}
use pyoneer.Prelude.Int.{pos}
use pyoneer.Task
use pyoneer.Task.{Task, Status}
use pyoneer.Task.Runner.{Child, exited}
use pyoneer.Job.{Job, JobStatus, ExecMode, RunMode, opts_size}
use pyoneer.Job.Runner.{JobRun}

abbrev pub task_of : String → Status → Task
task_of name status = record { status = status; name = some name }

abbrev pub job_of : RunMode → List Task → ℕ → Job
job_of mode tasks size = record {
  id = pos 7;
  status = JobStatus.ready;
  size = size;
  opts = record { size = opts_size; exec_mode = ExecMode.parallel; run_mode = mode };
  tasks = tasks;
}

-- One task of the two is running.
abbrev pub mixed_job : Job
mixed_job = job_of RunMode.once (task_of "a" Task.running ∷ task_of "b" Task.incomplete ∷ []) 2

abbrev pub ready_job : Job
ready_job = job_of RunMode.once (task_of "a" Task.ready ∷ task_of "b" Task.ready ∷ []) 2

abbrev pub repeat_job : Job
repeat_job = job_of RunMode.repeat (task_of "a" Task.ready ∷ []) 1

abbrev pub run_of : Job → JobRun
run_of job = record {
  job = job;
  info = record { size = 24; attempts = 0; completions = 0; successes = 0 };
}

-- The first child exits with 0, the others with 3.
abbrev pub child_at : ℕ → Child
child_at zero = record { spawn_code = pos 0; status = exited 0 }
child_at (suc k) = record { spawn_code = pos 0; status = exited 3 }
