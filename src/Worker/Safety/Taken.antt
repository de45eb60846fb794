-- ===== src/Worker/Safety/Taken.antt =====
-- pyoneer/worker.c and engine.c: when a run is taken, and what it leaves.
use pyoneer.Prelude.{
  ℕ, ◌≡◌, ◌≢◌, inl, inr, refl, sym, ◌∙◌, Bool, true, false, not, none, some, arith, ◌↔◌, ◌&&◌, ◌||◌,
  Bool-cases,
}
use mathlib.Core.Path.{subst}
use pyoneer.Job.{Job}
use pyoneer.Engine.{
  running, start_thread, Answers, Engine, can_run, job_run, job_runner_destroy, engine_run,
}
use pyoneer.Worker.Watch.{
  IsWatched, IsNumbered, update_status-keeps, update_status-IsWatched, engine_run-Started,
  engine_run-new, was_joined,
}
use pyoneer.Worker.{Worker, read_job, update_status, job_destroy, run_locked, is_working}
use pyoneer.Worker.Safety.{some_eq, taken_stored, freed, started_job}

-- Reading the status leaves the jobs that the worker does not hold.
update_status-other :
    (w : Worker) (a b : ℕ)
    → w.job ≡ some b
    → b ≢ a
    → (update_status w).engine.jobs a ≡ w.engine.jobs a
unfolding update_status read_job
update_status-other w a b holds apart = ground arith

engine_run-can :
    (ans : Answers) (a : ℕ) (job : Job) (e : Engine)
    → e.jobs a ≡ some job
    → can_run ans job ≡ true
    → (e' : Engine) × (engine_run ans a e ≡ some e')
unfolding engine_run job_run
engine_run-can ans a job e found can = (
  record (job_runner_destroy ans e.runner (start_thread a e)) {
    runner = some (record { job = a; thread = e.next_thread });
  },
  ground (arith, found, can),
)

engine_run-cannot :
    (ans : Answers) (a : ℕ) (job : Job) (e : Engine)
    → e.jobs a ≡ some job
    → can_run ans job ≡ false
    → engine_run ans a e ≡ none
unfolding engine_run job_run
engine_run-cannot ans a job e found cannot = ground (arith, found, cannot)

-- What a run of the job at `a` leaves of a worker that held the one at `b`, by whether it is taken.
unfoldable pub RunLeaves : ℕ → ℕ → Worker → Bool × Worker → Type 0
RunLeaves a b w (false, w') = w' ≡ update_status w
RunLeaves a b w (true, w') =
    (w'.job ≡ some a)
    × (w'.engine.jobs a ≢ none)
    × (w'.engine.jobs b ≡ none)
    × ((t c : ℕ) → (w'.engine.threads t ≡ running c) ↔ ((t ≡ w.engine.next_thread) × (c ≡ a)))
    × (w'.engine.undefined ≡ was_joined w.engine.runner w.engine.threads || w.engine.undefined)

taken-RunLeaves :
    (ans : Answers) (a b : ℕ) (w : Worker) (e' : Engine)
    → w.job ≡ some b
    → b ≢ a
    → IsWatched w.engine
    → IsNumbered w.engine
    → engine_run ans a (update_status w).engine ≡ some e'
    → RunLeaves a b w (
      true,
      record (update_status w) {
        job = some a;
        engine = record e' { jobs = job_destroy (update_status w).job e'.jobs };
      },
    )
unfolding RunLeaves
taken-RunLeaves ans a b w e' holds apart watched numbered started =
    let keeps = update_status-keeps w in
    let begun = engine_run-Started ans a (update_status w).engine e' started in
    let fresh =
      engine_run-new ans a (update_status w).engine e' started
        (λ r held. rw (keeps.3) (numbered r (sym keeps.1 ∙ held))) in
    (
      refl,
      taken_stored ans a w e' (λ q. apart (some_eq b a (sym holds ∙ q))) started,
      freed b (update_status w).job e'.jobs (keeps.0 ∙ holds),
      λ t c. (
        λ runs.
            let (x, y) =
              started_job a c t (update_status w).engine e' begun
                (update_status-IsWatched w watched) runs in
            (x ∙ keeps.3, y),
        λ (x, y). rw (x, y) (subst (λ n. e'.threads n ≡ running a) keeps.3 fresh.0),
      ),
      fresh.1 ∙ rw (keeps.1, keeps.2, keeps.4) refl,
    )

-- A run of a job that is stored, by a worker that holds another one, where only the thread of the engine's runner may run: it is taken exactly
-- if the worker is not working and the job can be started: there is a site, it has tasks, the runner can be
-- allocated and a thread created. One that is taken leaves the worker with the new job, which is stored, and without the
-- one that it held, which is freed; the thread that runs is the new one, on the new job, and no other; and the run had undefined
-- behaviour exactly if the thread of the old runner had been joined before, as by a stop. One that is refused does no more than reading the status.
pub run_locked_takes :
    (ans : Answers) (a b : ℕ) (job : Job) (w : Worker)
    → w.job ≡ some b
    → b ≢ a
    → w.engine.jobs a ≡ some job
    → IsWatched w.engine
    → IsNumbered w.engine
    → ((run_locked ans a w).0 ≡ not (is_working (update_status w).status) && can_run ans job)
      × RunLeaves a b w (run_locked ans a w)
unfolding run_locked RunLeaves
run_locked_takes ans a b job w holds apart stored watched numbered =
    let found = update_status-other w a b holds apart ∙ stored in
    elim (Bool-cases (is_working (update_status w).status)) [
      | inl busy ↦ rw busy (refl, refl)
      | inr idle ↦ elim (Bool-cases (can_run ans job)) [
        | inl can ↦
            let (e', started) = engine_run-can ans a job (update_status w).engine found can in
            rw (idle, started, can)
              (refl, taken-RunLeaves ans a b w e' holds apart watched numbered started)
        | inr cannot ↦
            rw (idle, engine_run-cannot ans a job (update_status w).engine found cannot, cannot)
              (refl, refl)
      ]
    ]
