-- ===== src/Job/Runner/Rounds.antt =====
-- blueprint/job.c: one round over tasks that are all ready, and what it makes of the job.
use pyoneer.Prelude.{
  ℕ, suc, ◌+◌, ◌≡◌, ◌≢◌, ◌↔◌, ◌⊎◌, inl, inr, refl, ap, Bool, true, false, some, List, [], ◌∷◌,
  arith, if◌then◌else◌,
}
use pyoneer.Prelude.Int.{pos}
use pyoneer.Task
use pyoneer.Task.{Task, Status, task_get_status}
use pyoneer.Task.Runner.{Child, WaitStatus, exited, neither}
use pyoneer.Job.{Job, JobStatus, JobRunnerInfo, RunMode, job_get_status}
use pyoneer.Job.Status.{HasStatus, IsDerived, job_get_status-IsDerived}
use pyoneer.Job.Codec.Sound.{AllReady}
use pyoneer.Job.Runner.{
  launched, run_to_end, sequential_round, finish_round, JobRun, job_loop, job_thread_sequential,
  is_completed,
}

-- The child started, and ended by itself or by a signal.
abbrev pub HasEnded : Child → Type 0
HasEnded child = (child.spawn_code ≡ pos 0) × (child.status ≢ neither)

-- The children of the tasks from position `i` on all end, all exit with 0, or one exits with another
-- code.
abbrev pub AllEnd : (ℕ → Child) → ℕ → List Task → Type 0
AllEnd children i [] = Unit
AllEnd children i (task ∷ tasks) = HasEnded (children i) × AllEnd children (i + 1) tasks

abbrev pub AllExitZero : (ℕ → Child) → ℕ → List Task → Type 0
AllExitZero children i [] = Unit
AllExitZero children i (task ∷ tasks) =
    ((children i).status ≡ exited 0) × AllExitZero children (i + 1) tasks

abbrev pub IsFailure : WaitStatus → Type 0
IsFailure (exited code) = code ≢ 0
IsFailure _ = ⊥

abbrev pub SomeFails : (ℕ → Child) → ℕ → List Task → Type 0
SomeFails children i [] = ⊥
SomeFails children i (task ∷ tasks) =
    IsFailure (children i).status ⊎ SomeFails children (i + 1) tasks

-- The tasks after each has been waited for.
abbrev pub ended_tasks : (ℕ → Child) → ℕ → List Task → List Task
ended_tasks children i [] = []
ended_tasks children i (task ∷ tasks) =
    run_to_end task (children i) ∷ ended_tasks children (i + 1) tasks

pub sequential_round-AllReady :
    (children : ℕ → Child) (i : ℕ) (repeat : Bool) (tasks : List Task)
    → AllReady tasks
    → sequential_round (λ k. launched (children k)) i repeat tasks
      ≡ record { tasks = ended_tasks children i tasks; completion = true; repeat = repeat }
unfolding sequential_round task_get_status
sequential_round-AllReady children i repeat [] all = refl
sequential_round-AllReady children i repeat (task ∷ tasks) all =
    ground (arith, all.0, sequential_round-AllReady children (i + 1) repeat tasks all.1)

ended-not_ready :
    (task : Task) (child : Child)
    → HasEnded child
    → ((run_to_end task child).status ≡ Task.not_ready) ↔ IsFailure child.status
unfolding run_to_end
ended-not_ready task child h = ground arith

ended-completed :
    (task : Task) (child : Child)
    → HasEnded child
    → ((run_to_end task child).status ≡ Task.completed) ↔ (child.status ≡ exited 0)
unfolding run_to_end
ended-completed task child h = ground arith

ended-ne-running :
    (task : Task) (child : Child)
    → HasEnded child
    → ((run_to_end task child).status ≢ Task.running)
      × ((run_to_end task child).status ≢ Task.other)
unfolding run_to_end
ended-ne-running task child h = ground arith

not-running_ended :
    (children : ℕ → Child) (i : ℕ) (tasks : List Task)
    → AllEnd children i tasks
    → ¬ HasStatus Task.running (ended_tasks children i tasks)
not-running_ended children i [] h r = r
not-running_ended children i (task ∷ tasks) h (inl e) = (ended-ne-running task (children i) h.0).0 e
not-running_ended children i (task ∷ tasks) h (inr r) =
    not-running_ended children (i + 1) tasks h.1 r

not_ready_ended :
    (children : ℕ → Child) (i : ℕ) (tasks : List Task)
    → AllEnd children i tasks
    → HasStatus Task.not_ready (ended_tasks children i tasks) ↔ SomeFails children i tasks
not_ready_ended children i [] h = (λ r. r, λ r. r)
not_ready_ended children i (task ∷ tasks) h =
    ground
      (arith, ended-not_ready task (children i) h.0, not_ready_ended children (i + 1) tasks h.1)

-- Where none of the four statuses is left, every task is completed.
abbrev pub NoneLeft : List Task → Type 0
NoneLeft tasks =
    (¬ HasStatus Task.running tasks)
    × (¬ HasStatus Task.not_ready tasks)
    × (¬ HasStatus Task.incomplete tasks)
    × (¬ HasStatus Task.ready tasks)

NoneLeft-cons :
    (task : Task) (tasks : List Task)
    → task.status ≢ Task.other
    → NoneLeft (task ∷ tasks) ↔ ((task.status ≡ Task.completed) × NoneLeft tasks)
NoneLeft-cons task tasks h = ground arith

NoneLeft-ended :
    (children : ℕ → Child) (i : ℕ) (tasks : List Task)
    → AllEnd children i tasks
    → NoneLeft (ended_tasks children i tasks) ↔ AllExitZero children i tasks
NoneLeft-ended children i [] h = (λ n. tt, λ n. ground arith)
NoneLeft-ended children i (task ∷ tasks) h = (
  λ n.
      let (done, rest) =
        (NoneLeft-cons ended others (ended-ne-running task (children i) h.0).1).0 n in
      (ended_zero.0 done, (NoneLeft-ended children (i + 1) tasks h.1).0 rest),
  λ z.
      (NoneLeft-cons ended others (ended-ne-running task (children i) h.0).1).1
        (ended_zero.1 z.0, (NoneLeft-ended children (i + 1) tasks h.1).1 z.1),
)
  where
    ended : Task
    ended = run_to_end task (children i)

    others : List Task
    others = ended_tasks children (i + 1) tasks

    ended_zero : (ended.status ≡ Task.completed) ↔ ((children i).status ≡ exited 0)
    ended_zero = ended-completed task (children i) h.0

-- The job once the only round of the mode that runs once is over.
abbrev ended_job : (ℕ → Child) → Job → Job
ended_job children job = record job { tasks = ended_tasks children 0 job.tasks }

abbrev after_round : (ℕ → Child) → JobRun → JobRun
after_round children r =
    finish_round
      (record { tasks = ended_tasks children 0 r.job.tasks; completion = true; repeat = false }) r

run_once-eq :
    (children : ℕ → Child) (fuel : ℕ) (r : JobRun)
    → AllReady r.job.tasks
    → r.job.opts.run_mode ≡ RunMode.once
    → job_thread_sequential (suc fuel) (λ n k. launched (children k)) r
      ≡ some (after_round children r)
unfolding job_thread_sequential job_loop
run_once-eq children fuel r all once =
    rw (once, sequential_round-AllReady children 0 false r.job.tasks all)

after_round-status :
    (children : ℕ → Child) (r : JobRun)
    → (after_round children r).job.status ≡ (job_get_status (ended_job children r.job)).1
unfolding finish_round job_get_status
after_round-status children r = refl

module _ (children : ℕ → Child) (r : JobRun) (sized : r.job.size ≢ 0)
    (ended : AllEnd children 0 r.job.tasks) where
  derived : IsDerived (ended_tasks children 0 r.job.tasks) (after_round children r).job.status
  derived =
      rw (after_round-status children r)
        ((job_get_status-IsDerived (ended_job children r.job) sized).0)

  verdict_completed :
      ((after_round children r).job.status ≡ JobStatus.completed)
      ↔ AllExitZero children 0 r.job.tasks
  verdict_completed = (
    λ e. (NoneLeft-ended children 0 r.job.tasks ended).0 (derived.completed.0 e),
    λ z. derived.completed.1 ((NoneLeft-ended children 0 r.job.tasks ended).1 z),
  )

  verdict_not_ready :
      ((after_round children r).job.status ≡ JobStatus.not_ready) ↔ SomeFails children 0 r.job.tasks
  verdict_not_ready = (
    λ e. (not_ready_ended children 0 r.job.tasks ended).0 (derived.not_ready.0 e).1,
    λ f. derived.not_ready.1 (
      not-running_ended children 0 r.job.tasks ended,
      (not_ready_ended children 0 r.job.tasks ended).1 f,
    ),
  )

after_round-info :
    (children : ℕ → Child) (r : JobRun)
    → (after_round children r).info ≡ record r.info {
      attempts = r.info.attempts + 1;
      completions = r.info.completions + 1;
      successes =
          if is_completed (after_round children r).job.status
          then r.info.successes + 1
          else r.info.successes;
    }
unfolding finish_round job_get_status
after_round-info children r = refl

-- What a run leaves that has ended: the status by the exit codes, and the counters.
pub record IsVerdict (children : ℕ → Child) (before after : JobRun) : Type 0 where
  pub completed : (after.job.status ≡ JobStatus.completed) ↔ AllExitZero children 0 before.job.tasks
  pub not_ready : (after.job.status ≡ JobStatus.not_ready) ↔ SomeFails children 0 before.job.tasks
  pub attempted : after.info.attempts ≡ before.info.attempts + 1
  pub finished : after.info.completions ≡ before.info.completions + 1
  pub counted :
      after.info.successes
      ≡ (if is_completed after.job.status then before.info.successes + 1 else before.info.successes)

-- A job in the mode that runs once, with tasks that are all ready and children that all start and
-- end, none of them before `task_run` has marked its task as running, and each released without effect, is over after one round of a sequential run: its status is completed exactly if every child
-- exits with 0, and not ready exactly if some child exits with another code; the attempt and the
-- completion are counted, and a success exactly if the job is completed.
pub run_once-IsVerdict :
    (children : ℕ → Child) (fuel : ℕ) (r : JobRun)
    → r.job.size ≢ 0
    → AllReady r.job.tasks
    → AllEnd children 0 r.job.tasks
    → r.job.opts.run_mode ≡ RunMode.once
    → (r' : JobRun) × (job_thread_sequential (suc fuel) (λ n k. launched (children k)) r ≡ some r')
      × IsVerdict children r r'
run_once-IsVerdict children fuel r sized all ended once = (
  after_round children r,
  run_once-eq children fuel r all once,
  record {
    completed = verdict_completed children r sized ended;
    not_ready = verdict_not_ready children r sized ended;
    attempted = ap (λ (i : JobRunnerInfo). i.attempts) (after_round-info children r);
    finished = ap (λ (i : JobRunnerInfo). i.completions) (after_round-info children r);
    counted = ap (λ (i : JobRunnerInfo). i.successes) (after_round-info children r);
  },
)
