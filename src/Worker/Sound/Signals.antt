-- ===== src/Worker/Sound/Signals.antt =====
-- pyoneer/worker.c: the signals, and who owns the job after them.
use pyoneer.Prelude.{
  ℕ, ◌≡◌, ◌≢◌, inl, inr, refl, sym, Option, Bool, true, false, if◌then◌else◌, ap, ◌∙◌, none, some,
  arith, Bool-cases, Option-cases,
}
use pyoneer.Job.{Job}
use pyoneer.Engine.{
  running, start_thread, job_thread_create, job_runner_stop, run_again, Runner, Answers, Engine,
  engine_run, engine_stop, engine_restart,
}
use pyoneer.Worker.{
  Worker, WorkerStatus, update_status, worker_stop, worker_start, worker_restart, start_job,
  restart_from, start_from, is_working,
}
use pyoneer.Worker.Watch.{
  IsWatched, engine_run-Started, Started-IsWatched, start_thread-running, job_runner_stop-stored,
  job_runner_stop-running, job_runner_stop-runner,
}
use pyoneer.Worker.Sound.{IsSound, paired_job, update_status-IsSound}

-- `engine_run` of the job that the worker holds, and `engine_restart`.
engine_run-IsSound :
    (ans : Answers) (w : Worker) (a : ℕ) (e : Engine)
    → w.job ≡ some a
    → engine_run ans a w.engine ≡ some e
    → IsSound w
    → IsSound (record w { engine = e })
engine_run-IsSound ans w a e holds started sound =
    let begun = engine_run-Started ans a w.engine e started in
    record {
      held = λ b same. begun.stored b (sound.held b same);
      paired = λ r same. holds ∙ paired_job a r e.runner _ begun.runner same;
      watched = Started-IsWatched a w.engine e begun sound.watched;
    }

-- A new engine whose runner is of the same job, in a store where nothing was freed.
record IsSuccessor (e e' : Engine) : Type 0 where
  same_job :
      (r' : Runner) → e'.runner ≡ some r' → (r : Runner) × (e.runner ≡ some r) × (r.job ≡ r'.job)
  stored : (a : ℕ) → e.jobs a ≢ none → e'.jobs a ≢ none
  watched : IsWatched e → IsWatched e'

IsSuccessor-IsSound :
    (w : Worker) (e : Engine)
    → IsSuccessor w.engine e
    → IsSound w
    → IsSound (record w { engine = e })
IsSuccessor-IsSound w e next sound = record {
  held = λ a same. next.stored a (sound.held a same);
  paired = λ r' same.
      let (r, before, same_job) = next.same_job r' same in sound.paired r before ∙ ap some same_job;
  watched = next.watched sound.watched;
}

same-IsSuccessor : (e : Engine) → IsSuccessor e e
same-IsSuccessor e = record {
  same_job = λ r' same. (r', same, refl);
  stored = λ a h. h;
  watched = λ h. h;
}

-- A runner that was stopped is still that of the engine.
stop-IsSuccessor :
    (ans : Answers) (r : Runner) (e : Engine) → IsSuccessor e (job_runner_stop ans r e)
stop-IsSuccessor ans r e = record {
  same_job = λ r' same. (r', sym (job_runner_stop-runner ans r e) ∙ same, refl);
  stored = job_runner_stop-stored ans r e;
  watched = λ watched t c runs.
      job_runner_stop-runner ans r e ∙ watched t c (job_runner_stop-running ans r e t c runs).0;
}

engine_stop-IsSuccessor : (ans : Answers) (e : Engine) → IsSuccessor e (engine_stop ans e)
unfolding engine_stop
engine_stop-IsSuccessor ans e = go e.runner
  where
    go :
        (o : Option Runner) → IsSuccessor e (elim o [ none ↦ e | some r ↦ job_runner_stop ans r e ])
    go none = same-IsSuccessor e
    go (some r) = stop-IsSuccessor ans r e

-- After the stop of its runner, an engine has no thread that runs.
stopped-idle :
    (ans : Answers) (r : Runner) (e : Engine)
    → e.runner ≡ some r
    → IsWatched (job_runner_stop ans r e)
    → (t c : ℕ) → (job_runner_stop ans r e).threads t ≢ running c
stopped-idle ans r e held watched t c runs =
    let (ran, apart) = job_runner_stop-running ans r e t c runs in
    ground (arith, sym held ∙ sym (job_runner_stop-runner ans r e) ∙ watched t c runs, apart)

-- A thread that is created again for the runner, where no thread runs.
run_again-IsSuccessor :
    (ans : Answers) (r : Runner) (e : Engine)
    → e.runner ≡ some r
    → (IsWatched e → (t c : ℕ) → e.threads t ≢ running c)
    → IsSuccessor e (run_again ans r e)
unfolding run_again
run_again-IsSuccessor ans r e held idle = go (e.jobs r.job)
  where
    made :
        IsSuccessor e
          (record (start_thread r.job e) { runner = some (record r { thread = e.next_thread }) })
    made = record {
      same_job = λ r' same. (r, held, ground arith);
      stored = λ a h. h;
      watched = λ watched t c runs. elim (start_thread-running r.job e t c runs) [
        | inl (x, y) ↦ rw (x, y) refl
        | inr old ↦ absurd (idle watched t c old)
      ];
    }

    chosen :
        (b : Bool)
        → IsSuccessor e (
            if b
            then record (start_thread r.job e) {
              runner = some (record r { thread = e.next_thread });
            }
            else e)
    chosen true = made
    chosen false = same-IsSuccessor e

    go :
        (o : Option Job)
        → IsSuccessor e (elim o [
          | none ↦ record e { undefined = true }
          | some job ↦
              if job_thread_create ans job
              then record (start_thread r.job e) {
                runner = some (record r { thread = e.next_thread });
              }
              else e
        ])
    go none = record { same_job = λ r' same. (r', same, refl); stored = λ a h. h; watched = λ h. h }
    go (some job) = chosen (job_thread_create ans job)

IsSuccessor-∙ : (e e' e'' : Engine) → IsSuccessor e e' → IsSuccessor e' e'' → IsSuccessor e e''
IsSuccessor-∙ e e' e'' next next' = record {
  same_job = λ r'' same.
      let (r', held, same') = next'.same_job r'' same in
      let (r, held', same'') = next.same_job r' held in (r, held', same'' ∙ same');
  stored = λ a h. next'.stored a (next.stored a h);
  watched = λ h. next'.watched (next.watched h);
}

engine_restart-IsSuccessor : (ans : Answers) (e : Engine) → IsSuccessor e (engine_restart ans e)
unfolding engine_restart
engine_restart-IsSuccessor ans e = go e.runner refl
  where
    go :
        (o : Option Runner)
        → e.runner ≡ o
        → IsSuccessor e (elim o [ none ↦ e | some r ↦ run_again ans r (job_runner_stop ans r e) ])
    go none held = same-IsSuccessor e
    go (some r) held = IsSuccessor-∙ e (job_runner_stop ans r e) _ (stop-IsSuccessor ans r e) (
        run_again-IsSuccessor ans r (job_runner_stop ans r e)
          (job_runner_stop-runner ans r e ∙ held)
          λ watched t c runs. stopped-idle ans r e held watched t c runs)

-- What a signal does once it has read the status: nothing, a run of the held job, or a call of the
-- engine that leaves a successor.
data Signalled (ans : Answers) (w w' : Worker) : Type 0 where
  kept : w' ≡ w → Signalled ans w w'
  started :
      (a : ℕ) (e : Engine)
      → w.job ≡ some a
      → engine_run ans a w.engine ≡ some e
      → w' ≡ record w { engine = e }
      → Signalled ans w w'
  passed : (e : Engine) → IsSuccessor w.engine e → w' ≡ record w { engine = e } → Signalled ans w w'

Signalled-IsSound : (ans : Answers) (w w' : Worker) → Signalled ans w w' → IsSound w → IsSound w'
Signalled-IsSound ans w w' (kept e) sound = rw e sound
Signalled-IsSound ans w w' (started a e holds run e') sound =
    rw e' (engine_run-IsSound ans w a e holds run sound)
Signalled-IsSound ans w w' (passed e next e') sound = rw e' (IsSuccessor-IsSound w e next sound)

start_job-Signalled : (ans : Answers) (w : Worker) → Signalled ans w (start_job ans w)
unfolding start_job
start_job-Signalled ans w = elim (Option-cases w.job) [
  | inl x ↦ kept (rw x refl)
  | inr (a, x) ↦ elim (Option-cases (engine_run ans a w.engine)) [
    | inl y ↦ kept (ground arith)
    | inr (e, y) ↦ started a e x y (ground arith)
  ]
]

engine_restart-Signalled :
    (ans : Answers) (w : Worker)
    → Signalled ans w (record w { engine = engine_restart ans w.engine })
engine_restart-Signalled ans w =
    passed (engine_restart ans w.engine) (engine_restart-IsSuccessor ans w.engine) refl

restart_from-Signalled :
    (ans : Answers) (status : WorkerStatus) (w : Worker)
    → Signalled ans w (restart_from ans status w)
unfolding restart_from
restart_from-Signalled ans WorkerStatus.not_assigned w = kept refl
restart_from-Signalled ans WorkerStatus.assigned w = start_job-Signalled ans w
restart_from-Signalled ans WorkerStatus.working w = engine_restart-Signalled ans w
restart_from-Signalled ans WorkerStatus.not_working w = engine_restart-Signalled ans w
restart_from-Signalled ans WorkerStatus.other w = kept refl

start_from-Signalled :
    (ans : Answers) (status : WorkerStatus) (w : Worker) → Signalled ans w (start_from ans status w)
unfolding start_from
start_from-Signalled ans WorkerStatus.not_assigned w = kept refl
start_from-Signalled ans WorkerStatus.assigned w = start_job-Signalled ans w
start_from-Signalled ans WorkerStatus.working w = kept refl
start_from-Signalled ans WorkerStatus.not_working w = engine_restart-Signalled ans w
start_from-Signalled ans WorkerStatus.other w = kept refl

worker_stop-Signalled :
    (ans : Answers) (w : Worker) → Signalled ans (update_status w) (worker_stop ans w)
unfolding worker_stop
worker_stop-Signalled ans w = elim (Bool-cases (is_working (update_status w).status)) [
  | inl e ↦
      passed (engine_stop ans (update_status w).engine)
        (engine_stop-IsSuccessor ans (update_status w).engine) (rw e refl)
  | inr e ↦ kept (rw e refl)
]

-- The signals keep it.
pub worker_restart-IsSound :
    (ans : Answers) (w : Worker) → IsSound w → IsSound (worker_restart ans w)
unfolding worker_restart
worker_restart-IsSound ans w sound =
    Signalled-IsSound ans (update_status w) (worker_restart ans w)
      (restart_from-Signalled ans (update_status w).status (update_status w))
      (update_status-IsSound w sound)

pub worker_start-IsSound : (ans : Answers) (w : Worker) → IsSound w → IsSound (worker_start ans w)
unfolding worker_start
worker_start-IsSound ans w sound =
    Signalled-IsSound ans (update_status w) (worker_start ans w)
      (start_from-Signalled ans (update_status w).status (update_status w))
      (update_status-IsSound w sound)

pub worker_stop-IsSound : (ans : Answers) (w : Worker) → IsSound w → IsSound (worker_stop ans w)
worker_stop-IsSound ans w sound =
    Signalled-IsSound ans (update_status w) (worker_stop ans w) (worker_stop-Signalled ans w)
      (update_status-IsSound w sound)
