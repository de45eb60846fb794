-- ===== src/Client/Served.antt =====
-- api/client.c: requests of clients and the work of the thread between them, in any order: whether a
-- job is freed while a thread runs on it.
pub mod Samples
use pyoneer.Prelude.{
  ℕ, ◌≡◌, ◌≢◌, refl, sym, ◌∙◌, true, false, Option, none, some, String, List, ap, arith, Bool,
}
use mathlib.Core.Path.{subst}
use pyoneer.Prelude.Int.{ℤ}
use pyoneer.Memory.{Supply, Ends}
use pyoneer.Json.{Json}
use pyoneer.Json.Builder.{JsonApi}
use pyoneer.Task.{Task}
use pyoneer.Job.{Job}
use pyoneer.Engine.{Store, ThreadState, running, over, set_thread, Answers, write}
use pyoneer.Worker.{Worker, worker_create}
use pyoneer.Worker.Watch.{IsSafe}
use pyoneer.Worker.Sound.{IsSound, IsSound-IsSafe, write-IsSound, worker_create-IsSound}
use pyoneer.Pyoneer.{Pyoneer, of_worker}
use pyoneer.Client.{Outcome, handle_request}
use pyoneer.Client.Sound.{SoundOutcome, AsksAssign, handle_request-IsSound}

-- What happens to a worker: a client's request that is handled and is no assign, where a job that it
-- brings gets an address that is free; a change that a thread that runs, whichever it is, makes to the tasks of
-- its job; the end of such a thread.
pub data Step (api : JsonApi) (token : Option String) (w w' : Worker) : Type 0 where
  request :
      (ans : Answers) (a : ℕ) (req resp reply : Option Json) (s s' : Supply)
      → w.engine.jobs a ≡ none
      → (¬ AsksAssign req)
      → handle_request api ans token a req resp (of_worker (some w)) s
        ≡ some ((reply, of_worker (some w')), s')
      → Step api token w w'
  progress :
      (t a : ℕ) (job : Job) (tasks : List Task)
      → w.engine.threads t ≡ running a
      → w.engine.jobs a ≡ some job
      → w' ≡ record w {
        engine = record w.engine {
          jobs = write w.engine.jobs a (some (record job { tasks = tasks }));
        };
      }
      → Step api token w w'
  thread_ends :
      (t a : ℕ)
      → w.engine.threads t ≡ running a
      → w' ≡ record w { engine = record w.engine { threads = set_thread w.engine.threads t over } }
      → Step api token w w'

pub data Served (api : JsonApi) (token : Option String) : Worker → Worker → Type 0 where
  done : (w : Worker) → Served api token w w
  next :
      (w w' w'' : Worker) → Step api token w w' → Served api token w' w'' → Served api token w w''

-- The end of an action that is known.
outcome_of :
    {o : Outcome} {s : Supply} (r : Option (Outcome × Supply))
    → r ≡ some (o, s)
    → Ends SoundOutcome r
    → SoundOutcome o
outcome_of r e ends = subst (Ends SoundOutcome) e ends

ended-running :
    (threads : ℕ → ThreadState) (t u c : ℕ)
    → set_thread threads t over u ≡ running c
    → threads u ≡ running c
ended-running threads t u c runs = ground arith

Step-IsSound :
    (api : JsonApi) (token : Option String) (w w' : Worker)
    → Step api token w w'
    → IsSound w
    → IsSound w'
Step-IsSound api token w w' (request ans a req resp reply s s' fresh other handled) sound =
    outcome_of (handle_request api ans token a req resp (of_worker (some w)) s) handled
      (handle_request-IsSound api ans token a req resp (of_worker (some w)) s other fresh sound)
Step-IsSound api token w w' (progress t a job tasks runs stored e) sound =
    rw e (write-IsSound w a (record job { tasks = tasks }) sound)
Step-IsSound api token w w' (thread_ends t a runs e) sound = rw e (record {
  held = sound.held;
  paired = sound.paired;
  watched = λ u c runs'. sound.watched u c (ended-running w.engine.threads t u c runs');
})

Served-IsSound :
    (api : JsonApi) (token : Option String) {w w' : Worker}
    → Served api token w w'
    → IsSound w
    → IsSound w'
Served-IsSound api token (done w) sound = sound
Served-IsSound api token (next w w' w'' step rest) sound =
    Served-IsSound api token rest (Step-IsSound api token w w' step sound)

-- A worker that was created, and served any requests but assigns, one after another, with the work of
-- its threads between them, is safe: the job of each thread that still runs, whichever runner started it, has not been freed; no thread runs but that of the
-- engine's runner; and the job that the worker holds, which is that of this runner, has not been freed.
pub Served-IsSafe :
    (api : JsonApi) (token : Option String) (id : ℤ) (allocated inited : Bool) (jobs : Store)
    (w w' : Worker)
    → worker_create id allocated inited jobs ≡ some w
    → Served api token w w'
    → IsSafe w' × IsSound w'
Served-IsSafe api token id allocated inited jobs w w' created served =
    let sound : IsSound w' =
      Served-IsSound api token served (worker_create-IsSound id allocated inited jobs w created) in
    (IsSound-IsSafe w' sound, sound)
