-- ===== src/Worker/Watch.antt =====
-- pyoneer/engine.c: the threads that run, and the jobs that they run on.
use pyoneer.Prelude.{
  ℕ, ◌≡◌, ◌≢◌, ◌⊎◌, inl, inr, refl, sym, ap, ◌∙◌, Bool, true, false, ◌||◌, Option, none, some,
  arith, ◌==◌, Bool-cases, Option-cases,
}
use pyoneer.Job.{Job}
use pyoneer.Engine.{
  ThreadState, running, over, gone, start_thread, Runner, Answers, Engine, can_run, job_run,
  job_runner_stop, job_runner_destroy, engine_run,
}
use pyoneer.Worker.{Worker, WorkerStatus, read_job, update_status}

-- The job of a thread that still runs, whichever runner started it, has not been freed.
abbrev pub IsSafe : Worker → Type 0
IsSafe w = (t c : ℕ) → w.engine.threads t ≡ running c → w.engine.jobs c ≢ none

-- Each thread that runs is the one of the engine's runner, on the job of the runner.
abbrev pub IsWatched : Engine → Type 0
IsWatched e = (t c : ℕ) → e.threads t ≡ running c → e.runner ≡ some (record { job = c; thread = t })

-- Reading the status frees nothing.
pub update_status-stored :
    (w : Worker) (c : ℕ) → w.engine.jobs c ≢ none → (update_status w).engine.jobs c ≢ none
unfolding update_status read_job
update_status-stored w c h = ground arith

-- What reading the status leaves.
abbrev pub Kept : Worker → Worker → Type 0
Kept w w' =
    (w'.job ≡ w.job)
    × (w'.engine.runner ≡ w.engine.runner)
    × (w'.engine.threads ≡ w.engine.threads)
    × (w'.engine.next_thread ≡ w.engine.next_thread)
    × (w'.engine.undefined ≡ w.engine.undefined)

read_job-keeps : (w : Worker) (a : ℕ) (o : Option Job) → Kept w (read_job w a o)
unfolding read_job
read_job-keeps w a none = (refl, refl, refl, refl, refl)
read_job-keeps w a (some job) = (refl, refl, refl, refl, refl)

pub update_status-keeps : (w : Worker) → Kept w (update_status w)
unfolding update_status
update_status-keeps w = go w.job
  where
    go :
        (o : Option ℕ)
        → Kept w (elim o [
          | none ↦ record w { status = WorkerStatus.not_assigned }
          | some a ↦ read_job w a (w.engine.jobs a)
        ])
    go none = (refl, refl, refl, refl, refl)
    go (some a) = read_job-keeps w a (w.engine.jobs a)

pub update_status-IsSafe : (w : Worker) → IsSafe w → IsSafe (update_status w)
update_status-IsSafe w safe t c runs =
    update_status-stored w c
      (safe t c (ap (λ threads. threads t) (sym (update_status-keeps w).2) ∙ runs))

pub update_status-IsWatched : (w : Worker) → IsWatched w.engine → IsWatched (update_status w).engine
update_status-IsWatched w watched t c runs =
    (update_status-keeps w).1
    ∙ watched t c (ap (λ threads. threads t) (sym (update_status-keeps w).2) ∙ runs)

-- Stopping a runner frees nothing.
pub job_runner_stop-stored :
    (ans : Answers) (r : Runner) (e : Engine) (c : ℕ)
    → e.jobs c ≢ none
    → (job_runner_stop ans r e).jobs c ≢ none
unfolding job_runner_stop
job_runner_stop-stored ans r e c h = ground arith

pub job_runner_destroy-stored :
    (ans : Answers) (r : Option Runner) (e : Engine) (c : ℕ)
    → e.jobs c ≢ none
    → (job_runner_destroy ans r e).jobs c ≢ none
unfolding job_runner_destroy
job_runner_destroy-stored ans none e c h = h
job_runner_destroy-stored ans (some r) e c h = job_runner_stop-stored ans r e c h

pub job_runner_stop-runner :
    (ans : Answers) (r : Runner) (e : Engine) → (job_runner_stop ans r e).runner ≡ e.runner
unfolding job_runner_stop
job_runner_stop-runner ans r e = ground arith

same_thread :
    (r r' : Runner) (t : ℕ) → some r ≡ some r' → (r.thread == t) ≡ false → (r'.thread == t) ≡ false
same_thread r r' t same apart = ground arith

-- A thread that runs after a runner was stopped ran before, and is not that of the runner.
pub job_runner_stop-running :
    (ans : Answers) (r : Runner) (e : Engine) (t c : ℕ)
    → (job_runner_stop ans r e).threads t ≡ running c
    → (e.threads t ≡ running c) × ((r.thread == t) ≡ false)
unfolding job_runner_stop
job_runner_stop-running ans r e t c runs = (ground arith, ground arith)

-- What `engine_run` gives: a runner of the job with a thread of its own, in a store where nothing was
-- freed; of the other threads that run, none is the one of the old runner.
pub record Started (a : ℕ) (e e' : Engine) : Type 0 where
  pub runner : e'.runner ≡ some (record { job = a; thread = e.next_thread })
  pub stored : (c : ℕ) → e.jobs c ≢ none → e'.jobs c ≢ none
  pub found : e.jobs a ≢ none
  pub others :
      (t c : ℕ)
      → e'.threads t ≡ running c
      → ((t ≡ e.next_thread) × (c ≡ a))
        ⊎ ((e.threads t ≡ running c) × ((r : Runner) → e.runner ≡ some r → (r.thread == t) ≡ false))

pub start_thread-running :
    (a : ℕ) (e : Engine) (t c : ℕ)
    → (start_thread a e).threads t ≡ running c
    → ((t ≡ e.next_thread) × (c ≡ a)) ⊎ (e.threads t ≡ running c)
start_thread-running a e t c runs = elim (Bool-cases (e.next_thread == t)) [
  | inl x ↦ inl (ground arith, ground arith)
  | inr x ↦ inr (ground arith)
]

job_runner_destroy-others :
    (ans : Answers) (a : ℕ) (e : Engine) (o : Option Runner) (t c : ℕ)
    → e.runner ≡ o
    → (job_runner_destroy ans o (start_thread a e)).threads t ≡ running c
    → ((t ≡ e.next_thread) × (c ≡ a))
      ⊎ ((e.threads t ≡ running c) × ((r : Runner) → e.runner ≡ some r → (r.thread == t) ≡ false))
unfolding job_runner_destroy
job_runner_destroy-others ans a e none t c none_ runs = elim (start_thread-running a e t c runs) [
  | inl new ↦ inl new
  | inr old ↦ inr (old, λ r same. cc)
]
job_runner_destroy-others ans a e (some r) t c held runs =
    let (ran, apart) = job_runner_stop-running ans r (start_thread a e) t c runs in
    elim (start_thread-running a e t c ran) [
      | inl new ↦ inl new
      | inr old ↦ inr (old, λ r' same. same_thread r r' t (sym held ∙ same) apart)
    ]

pub engine_run-parts :
    (ans : Answers) (a : ℕ) (e e' : Engine)
    → engine_run ans a e ≡ some e'
    → (e.jobs a ≢ none)
      × (e' ≡ record (job_runner_destroy ans e.runner (start_thread a e)) {
        runner = some (record { job = a; thread = e.next_thread });
      })
unfolding engine_run job_run
engine_run-parts ans a e e' h = elim (Option-cases (e.jobs a)) [
  | inl x ↦ absurd (ground (arith, h, x))
  | inr (job, x) ↦ elim (Bool-cases (can_run ans job)) [
    | inl y ↦ (ground arith, ground (arith, h, x, y))
    | inr y ↦ absurd (ground (arith, h, x, y))
  ]
]

pub engine_run-Started :
    (ans : Answers) (a : ℕ) (e e' : Engine) → engine_run ans a e ≡ some e' → Started a e e'
engine_run-Started ans a e e' h =
    let (found, parts) = engine_run-parts ans a e e' h in
    record {
      runner = rw parts refl;
      stored =
          λ c stored. rw parts (job_runner_destroy-stored ans e.runner (start_thread a e) c stored);
      found = found;
      others = λ t c runs.
          job_runner_destroy-others ans a e e.runner t c refl
            (ap (λ (x : Engine). x.threads t) (sym parts) ∙ runs);
    }

pub Started-IsWatched : (a : ℕ) (e e' : Engine) → Started a e e' → IsWatched e → IsWatched e'
Started-IsWatched a e e' started watched t c runs = elim (started.others t c runs) [
  | inl (x, y) ↦ rw (x, y) started.runner
  | inr (old, apart) ↦ absurd (ground (arith, apart _ (watched t c old)))
]

-- Whether the thread of the old runner was joined before.
abbrev pub was_joined : Option Runner → (ℕ → ThreadState) → Bool
was_joined none threads = false
was_joined (some r) threads = elim (threads r.thread) [
  | gone ↦ true
  | over ↦ false
  | running c ↦ false
]

-- The thread of the runner was started before those to come.
abbrev pub IsNumbered : Engine → Type 0
IsNumbered e = (r : Runner) → e.runner ≡ some r → (r.thread == e.next_thread) ≡ false

new_thread :
    (ans : Answers) (a : ℕ) (e : Engine) (o : Option Runner)
    → ((r : Runner) → o ≡ some r → (r.thread == e.next_thread) ≡ false)
    → ((job_runner_destroy ans o (start_thread a e)).threads e.next_thread ≡ running a)
      × ((job_runner_destroy ans o (start_thread a e)).undefined
          ≡ was_joined o e.threads || e.undefined)
unfolding job_runner_destroy job_runner_stop
new_thread ans a e none apart = (ground arith, refl)
new_thread ans a e (some r) apart = (ground (arith, apart r refl), ground (arith, apart r refl))

-- The new thread runs, and whether the run had undefined behaviour.
pub engine_run-new :
    (ans : Answers) (a : ℕ) (e e' : Engine)
    → engine_run ans a e ≡ some e'
    → IsNumbered e
    → (e'.threads e.next_thread ≡ running a)
      × (e'.undefined ≡ was_joined e.runner e.threads || e.undefined)
engine_run-new ans a e e' h numbered =
    rw ((engine_run-parts ans a e e' h).1) (new_thread ans a e e.runner numbered)
