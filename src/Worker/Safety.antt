-- ===== src/Worker/Safety.antt =====
-- pyoneer/worker.c and engine.c: who holds which job, and whether a thread can be left with a job
-- that has been freed.
pub mod Samples
pub mod Taken
use pyoneer.Prelude.{
  ℕ, ◌≡◌, ◌≢◌, ◌⊎◌, inl, inr, refl, sym, ap, ◌∙◌, Bool, true, false, not, Option, none, some, arith,
  ◌==◌, ◌↔◌, ◌&&◌, ◌||◌, Bool-cases, Option-cases, if◌then◌else◌,
}
use mathlib.Core.Path.{subst}
use pyoneer.Job.{Job, JobStatus, job_get_status}
use pyoneer.Engine.{
  Store, write, ThreadState, running, over, gone, set_thread, start_thread, Runner, Answers, Engine,
  can_run, job_run, job_runner_stop, job_runner_destroy, engine_run, engine_stop, engine_restart,
}
use pyoneer.Worker.Watch.{
  IsSafe, IsWatched, IsNumbered, update_status-stored, update_status-keeps, update_status-IsSafe,
  update_status-IsWatched, Started, engine_run-Started, engine_run-new, engine_run-parts,
  Started-IsWatched, was_joined,
}
use pyoneer.Worker.{
  Worker, WorkerStatus, status_of_job, read_job, update_status, job_destroy, run_locked,
  assign_locked, is_working, worker_stop, worker_start, worker_restart,
}

-- The cases of `run_locked`: it refuses, or it has started the engine and frees the old job.
pub run_locked-cases :
    (ans : Answers) (a : ℕ) (w : Worker)
    → (run_locked ans a w ≡ (false, update_status w))
      ⊎ ((e : Engine) × (engine_run ans a (update_status w).engine ≡ some e)
          × (run_locked ans a w ≡ (
            true,
            record (update_status w) {
              job = some a;
              engine = record e { jobs = job_destroy (update_status w).job e.jobs };
            },
          )))
unfolding run_locked
run_locked-cases ans a w = elim (Option-cases (engine_run ans a (update_status w).engine)) [
  | inl x ↦ inl (ground arith)
  | inr (e, x) ↦ elim (Bool-cases (is_working (update_status w).status)) [
    | inl y ↦ inl (rw y)
    | inr y ↦ inr (e, x, rw (y, x))
  ]
]

job_destroy-stored :
    (o : Option ℕ) (jobs : Store) (c : ℕ) → o ≢ some c → jobs c ≢ none → job_destroy o jobs c ≢ none
unfolding job_destroy
job_destroy-stored none jobs c h k = k
job_destroy-stored (some a) jobs c h k = ground arith

pub some_eq : (b a : ℕ) → some b ≡ some a → b ≡ a
some_eq b a e = ground arith

pub taken_stored :
    (ans : Answers) (a : ℕ) (w : Worker) (e : Engine)
    → w.job ≢ some a
    → engine_run ans a (update_status w).engine ≡ some e
    → job_destroy (update_status w).job e.jobs a ≢ none
taken_stored ans a w e fresh started =
    let run = engine_run-Started ans a (update_status w).engine e started in
    job_destroy-stored (update_status w).job e.jobs a
      (λ q. fresh (sym (update_status-keeps w).0 ∙ q)) (run.stored a run.found)

pub freed : (b : ℕ) (o : Option ℕ) (jobs : Store) → o ≡ some b → job_destroy o jobs b ≡ none
unfolding job_destroy
freed b none jobs e = cc
freed b (some c) jobs e = ground arith

pub run_locked-IsWatched :
    (ans : Answers) (a : ℕ) (w : Worker)
    → IsWatched w.engine
    → IsWatched (run_locked ans a w).1.engine
run_locked-IsWatched ans a w watched = elim (run_locked-cases ans a w) [
  | inl e ↦ rw e (update_status-IsWatched w watched)
  | inr (e', started, e) ↦ rw e (
      Started-IsWatched a (update_status w).engine e'
        (engine_run-Started ans a (update_status w).engine e' started)
        (update_status-IsWatched w watched))
]

-- The job of the one thread that runs after a run that was taken.
pub started_job :
    (a c t : ℕ) (e e' : Engine)
    → Started a e e'
    → IsWatched e
    → e'.threads t ≡ running c
    → (t ≡ e.next_thread) × (c ≡ a)
started_job a c t e e' started watched runs = elim (started.others t c runs) [
  | inl new ↦ new
  | inr (old, apart) ↦ absurd (ground (arith, apart _ (watched t c old)))
]

-- Where each thread that runs is the one of the engine's runner, and the job of each is not freed, a run of a job that the worker does
-- not hold already keeps it so, whether it is taken or refused: no thread is left behind on the job that is freed.
pub run_locked-IsSafe :
    (ans : Answers) (a : ℕ) (w : Worker)
    → IsSafe w
    → IsWatched w.engine
    → w.job ≢ some a
    → IsSafe (run_locked ans a w).1 × IsWatched (run_locked ans a w).1.engine
run_locked-IsSafe ans a w safe watched fresh = (
  elim (run_locked-cases ans a w) [
    | inl e ↦ rw e (update_status-IsSafe w safe)
    | inr (e', started, e) ↦ rw e (λ t c runs.
        let begun = engine_run-Started ans a (update_status w).engine e' started in
        let new =
          started_job a c t (update_status w).engine e' begun (update_status-IsWatched w watched)
            runs in
        rw (new.1) (taken_stored ans a w e' fresh started))
  ],
  run_locked-IsWatched ans a w watched,
)

ran_before :
    (w : Worker) (t c : ℕ)
    → (update_status w).engine.threads t ≡ running c
    → w.engine.threads t ≡ running c
ran_before w t c runs = ap (λ threads. threads t) (sym (update_status-keeps w).2) ∙ runs

working_absurd : (s : WorkerStatus) → is_working s ≡ false → s ≢ WorkerStatus.working
working_absurd s e = ground arith

is_idle : (s : WorkerStatus) → s ≢ WorkerStatus.working → is_working s ≡ false
is_idle s h = ground arith

-- An assignment keeps a worker safe if no thread runs on the job that the worker holds, or the
-- worker is working, which makes it refuse.
pub assign_locked-IsSafe :
    (a : ℕ) (w : Worker)
    → IsSafe w
    → ((t c : ℕ) → w.engine.threads t ≡ running c → w.job ≢ some c)
      ⊎ ((update_status w).status ≡ WorkerStatus.working)
    → IsSafe (assign_locked a w).1
unfolding assign_locked
assign_locked-IsSafe a w safe h = elim (Bool-cases (is_working (update_status w).status)) [
  | inl y ↦ rw y (update_status-IsSafe w safe)
  | inr y ↦ rw y (λ t c runs.
      job_destroy-stored (update_status w).job (update_status w).engine.jobs c
        (λ q. elim h [
          | inl apart ↦ apart t c (ran_before w t c runs) (sym (update_status-keeps w).0 ∙ q)
          | inr works ↦ working_absurd (update_status w).status y works
        ])
        (update_status-IsSafe w safe t c runs))
]

-- An assignment to a worker whose thread still runs on its job, but finds no task running, as between
-- two tasks of a sequential run, is taken, and frees the job of the running thread.
pub assign_locked_unsafe :
    (a b t : ℕ) (w : Worker)
    → w.job ≡ some b
    → w.engine.threads t ≡ running b
    → (update_status w).status ≢ WorkerStatus.working
    → ((assign_locked a w).0 ≡ true)
      × ((assign_locked a w).1.engine.jobs b ≡ none)
      × (¬ IsSafe (assign_locked a w).1)
unfolding assign_locked
assign_locked_unsafe a b t w holds runs idle =
    let gone : job_destroy (update_status w).job (update_status w).engine.jobs b ≡ none =
      freed b (update_status w).job (update_status w).engine.jobs
        ((update_status-keeps w).0 ∙ holds) in
    rw (is_idle (update_status w).status idle) (
      refl,
      gone,
      λ safe. safe t b (ap (λ threads. threads t) (update_status-keeps w).2 ∙ runs) gone,
    )
