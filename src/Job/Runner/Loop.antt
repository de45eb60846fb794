-- ===== src/Job/Runner/Loop.antt =====
-- blueprint/job.c: the rounds of a job's thread: how many there are, and what they count.
mod Samples
use pyoneer.Prelude.{
  ℕ, zero, suc, ◌+◌, ◌≤◌, ◌<◌, ◌≡◌, ◌≢◌, refl, ap, ◌∙◌, Bool, true, false, Option, none, some, List,
  [], ◌∷◌, arith, length, if◌then◌else◌, Bool-cases, inl, inr,
}
use mathlib.Core.Path.{fun_ext}
use pyoneer.Task
use pyoneer.Task.{Task}
use pyoneer.Task.Runner.{Child}
use pyoneer.Job.Invariant.{length-reset_tasks}
use pyoneer.Job.{
  update_status, Job, JobRunnerInfo, ExecMode, RunMode, job_get_status, reset_tasks, reset_status,
}
use pyoneer.Job.Codec.Sound.{AllReady}
use pyoneer.Job.Runner.{
  Launch, launched, Round, sequential_round, finish_round, JobRun, is_repeat, job_loop,
  job_thread_sequential, job_thread_parallel, job_thread, parallel_round,
}
use pyoneer.Job.Runner.Modes.{parallel_round-eq-sequential_round}
use pyoneer.Job.Runner.Rounds.{ended_tasks, sequential_round-AllReady}

-- Every success is a completion, and every completion an attempt.
pub record IsCounted (info : JobRunnerInfo) : Type 0 where
  pub successes_le : info.successes ≤ info.completions
  pub completions_le : info.completions ≤ info.attempts

finish_round-IsCounted :
    (round : Round) (r : JobRun) → IsCounted r.info → IsCounted (finish_round round r).info
unfolding finish_round
finish_round-IsCounted round r c = ground arith

abbrev result :
    ((ℕ → Launch) → ℕ → Bool → List Task → Round) → (ℕ → ℕ → Launch) → ℕ → JobRun → Round
result round envs n r = round (envs n) 0 (is_repeat r.job.opts.run_mode) r.job.tasks

job_loop-IsCounted :
    (round : (ℕ → Launch) → ℕ → Bool → List Task → Round) (fuel : ℕ) (envs : ℕ → ℕ → Launch) (n : ℕ)
    (r r' : JobRun)
    → IsCounted r.info
    → job_loop round fuel envs n r ≡ some r'
    → IsCounted r'.info
unfolding job_loop
job_loop-IsCounted round zero envs n r r' c e = cc
job_loop-IsCounted round (suc fuel) envs n r r' c e = ground (
  arith,
  finish_round-IsCounted (result round envs n r) r c,
  job_loop-IsCounted round fuel envs (n + 1) (finish_round (result round envs n r) r) r',
)

-- The counters of a runner that starts in order are in order when its thread is over, whatever the
-- mode and whatever the tasks did: no more successes than completions, no more completions than
-- attempts.
pub job_thread-IsCounted :
    (mode : ExecMode) (fuel : ℕ) (envs : ℕ → ℕ → Launch) (r r' : JobRun)
    → IsCounted r.info
    → job_thread mode fuel envs r ≡ some r'
    → IsCounted r'.info
unfolding job_thread job_thread_sequential job_thread_parallel
job_thread-IsCounted ExecMode.sequential fuel envs r r' c e =
    job_loop-IsCounted sequential_round fuel envs 0 r r' c e
job_thread-IsCounted ExecMode.parallel fuel envs r r' c e =
    job_loop-IsCounted parallel_round fuel envs 0 r r' c e
job_thread-IsCounted ExecMode.other fuel envs r r' c e = cc

-- The thread of the parallel mode leaves the same job and the same counters as the thread of the
-- sequential mode, whatever the environment does in each round: which tasks it starts, how their children end, and
-- which of the threads overtake the mark of their tasks. Neither thread is over before the other. The
-- releases of the runners are taken to do nothing.
pub job_thread_parallel-eq-sequential :
    (fuel : ℕ) (envs : ℕ → ℕ → Launch) (r : JobRun)
    → job_thread_parallel fuel envs r ≡ job_thread_sequential fuel envs r
unfolding job_thread_sequential job_thread_parallel
job_thread_parallel-eq-sequential fuel envs r =
    ap (λ (round : (ℕ → Launch) → ℕ → Bool → List Task → Round). job_loop round fuel envs 0 r)
      (fun_ext λ env. fun_ext λ i.
        fun_ext λ repeat. fun_ext λ tasks. parallel_round-eq-sequential_round env i repeat tasks)

-- The job repeats, it has tasks, and all of them are ready.
pub record IsRepeating (job : Job) : Type 0 where
  pub mode : job.opts.run_mode ≡ RunMode.repeat
  pub all : AllReady job.tasks
  pub filled : 0 < length job.tasks

AllReady-reset_tasks : (tasks : List Task) → AllReady (reset_tasks tasks)
unfolding reset_tasks
AllReady-reset_tasks [] = tt
AllReady-reset_tasks (task ∷ tasks) = (refl, AllReady-reset_tasks tasks)

-- The round in which every launch succeeds.
abbrev full_round : (ℕ → Child) → JobRun → JobRun
full_round children r =
    finish_round
      (record { tasks = ended_tasks children 0 r.job.tasks; completion = true; repeat = true }) r

length-ended_tasks :
    (children : ℕ → Child) (i : ℕ) (tasks : List Task)
    → length (ended_tasks children i tasks) ≡ length tasks
length-ended_tasks children i [] = refl
length-ended_tasks children i (task ∷ tasks) = ap suc (length-ended_tasks children (i + 1) tasks)

update_status-keeps :
    (job : Job) → ((update_status job).opts ≡ job.opts) × ((update_status job).tasks ≡ job.tasks)
unfolding update_status
update_status-keeps job = ground arith

full_round-IsRepeating :
    (children : ℕ → Child) (r : JobRun)
    → IsRepeating r.job
    → IsRepeating (full_round children r).job
unfolding finish_round
full_round-IsRepeating children r h = record {
  mode = rw ((update_status-keeps ended).0) h.mode;
  all = AllReady-reset_tasks (update_status ended).tasks;
  filled =
      rw (length-reset_tasks, (update_status-keeps ended).1)
        (rw (length-ended_tasks children 0 r.job.tasks) h.filled);
}
  where
    ended : Job
    ended = record r.job { tasks = ended_tasks children 0 r.job.tasks }

job_loop-full :
    (fuel n : ℕ) (envs : ℕ → ℕ → Launch) (children : ℕ → Child) (r : JobRun)
    → IsRepeating r.job
    → envs n ≡ (λ k. launched (children k))
    → job_loop sequential_round (suc fuel) envs n r
      ≡ job_loop sequential_round fuel envs (n + 1) (full_round children r)
unfolding job_loop
job_loop-full fuel n envs children r h e =
    rw (e, h.mode, sequential_round-AllReady children 0 true r.job.tasks h.all)

-- A repeating job whose tasks are all ready and whose children are all launched, each task being marked before its end, whatever they then
-- do, is never over: no number of rounds is enough.
pub repeat_never_over :
    (fuel : ℕ) (envs : ℕ → ℕ → Launch) (children : ℕ → ℕ → Child) (n : ℕ) (r : JobRun)
    → IsRepeating r.job
    → ((m : ℕ) → envs m ≡ (λ k. launched (children m k)))
    → job_loop sequential_round fuel envs n r ≡ none
unfolding job_loop
repeat_never_over zero envs children n r h e = refl
repeat_never_over (suc fuel) envs children n r h e =
    job_loop-full fuel n envs (children n) r h (e n)
    ∙ repeat_never_over fuel envs children (n + 1) (full_round (children n) r)
        (full_round-IsRepeating (children n) r h) e

-- How a repeating job is over after `k` full rounds and one that is refused.
pub record IsStopped (k : ℕ) (before after : JobRun) : Type 0 where
  pub attempted : after.info.attempts ≡ before.info.attempts + k + 1
  pub finished : after.info.completions ≡ before.info.completions + k

stopped_round : JobRun → JobRun
stopped_round r =
    finish_round (record { tasks = r.job.tasks; completion = false; repeat = false }) r
