-- ===== src/Client/Sound.antt =====
-- api/client.c: the commands of a request, and who owns the job after them.
use pyoneer.Prelude.{
  ℕ, String, ◌≡◌, ◌≢◌, refl, ◌∙◌, Option, none, some, arith, str_eq, eq_iff, Bool-cases,
  Option-cases, ap, inl, inr,
}
use pyoneer.Memory.{Supply, Run, Ends, Ends-bind, Ends-after, Ends-if}
use pyoneer.Json.{Json, Fields, object, string, find_field}
use pyoneer.Json.Builder.{JsonApi}
use pyoneer.Json.Push.{add_string, push_entry}
use pyoneer.Job.{Job}
use pyoneer.Engine.{Answers}
use pyoneer.Worker.{Worker}
use pyoneer.Worker.Commands.{worker_get_status, worker_run}
use pyoneer.Worker.Sound.{IsSound, write-IsSound}
use pyoneer.Worker.Sound.Signals.{worker_restart-IsSound, worker_start-IsSound, worker_stop-IsSound}
use pyoneer.Worker.Sound.Replies.{worker_get_status-IsSound, worker_run-IsSound}
use pyoneer.Pyoneer.{
  Pyoneer, of_worker, unset, store_job, add_role, pyoneer_blueprint_decode,
  pyoneer_worker_get_status, pyoneer_run_job, pyoneer_worker_restart, pyoneer_worker_start,
  pyoneer_worker_stop,
}
use pyoneer.Client.{
  ApiErr, err_json_missing, err_token, err_cmd, err_blueprint, err_json_parse, err_json_type,
  api_err_msg, text_of, token_matches, Outcome, fail_with, act_on, reply_with, with_blueprint,
  signal_with, run_command, check_request, handle_request,
}

abbrev pub IsSoundPyoneer : Pyoneer → Type 0
IsSoundPyoneer (of_worker (some w)) = IsSound w
IsSoundPyoneer _ = Unit

abbrev pub SoundOutcome : Outcome → Type 0
SoundOutcome o = IsSoundPyoneer o.1

-- The allocator gives an address that no job stands at.
abbrev pub IsFreshIn : ℕ → Pyoneer → Type 0
IsFreshIn a (of_worker (some w)) = w.engine.jobs a ≡ none
IsFreshIn a _ = Unit

fresh_apart : (w : Worker) (a : ℕ) → IsSound w → w.engine.jobs a ≡ none → w.job ≢ some a
fresh_apart w a sound fresh e = sound.held a e fresh

text_of-eq : (v : Option Json) (t : String) → text_of v ≡ some t → v ≡ some (string t)
unfolding text_of
text_of-eq (some (string u)) t e = ground arith
text_of-eq none t e = cc
text_of-eq (some _) t e = cc

-- The request is an assign.
abbrev pub AsksAssign : Option Json → Type 0
AsksAssign req =
    (fs : Fields) × (req ≡ some (object fs)) × (find_field fs "command" ≡ some (string "assign"))

module _ (api : JsonApi) (ans : Answers) where
  get_status-IsSound :
      (p : Pyoneer) (s : Supply)
      → IsSoundPyoneer p
      → Ends SoundOutcome (pyoneer_worker_get_status api ans p s)
  unfolding pyoneer_worker_get_status
  get_status-IsSound (of_worker (some w)) s sound =
      Ends-bind SoundOutcome (λ r. IsSound r.1) (worker_get_status api ans w) _ s
        (worker_get_status-IsSound api ans w s sound)
        (λ r s' sound'. Ends-after SoundOutcome (add_role api r.1 r.0) _ s' (λ _ _. sound'))
  get_status-IsSound (of_worker none) s sound = tt
  get_status-IsSound unset s sound = tt

  run_job-IsSound :
      (a : ℕ) (job : Job) (p : Pyoneer) (s : Supply)
      → IsFreshIn a p
      → IsSoundPyoneer p
      → Ends SoundOutcome (pyoneer_run_job api ans a job p s)
  unfolding pyoneer_run_job
  run_job-IsSound a job (of_worker (some w)) s fresh sound =
      Ends-bind SoundOutcome (λ r. IsSound r.1) (worker_run api ans (some a) (store_job a job w)) _
        s
        (worker_run-IsSound api ans a (store_job a job w) s (fresh_apart w a sound fresh)
          (write-IsSound w a job sound))
        (λ r s' sound'. Ends-after SoundOutcome (add_role api r.1 r.0) _ s' (λ _ _. sound'))
  run_job-IsSound a job (of_worker none) s fresh sound = tt
  run_job-IsSound a job unset s fresh sound = tt

  fail_with-IsSound :
      (err : ApiErr) (resp : Option Json) (p : Pyoneer) (s : Supply)
      → IsSoundPyoneer p
      → Ends SoundOutcome (fail_with api err resp p s)
  unfolding fail_with
  fail_with-IsSound err resp p s sound =
      Ends-after SoundOutcome (add_string api resp "Error" (some (api_err_msg err))) _ s
        (λ _ _. sound)

  reply_with-IsSound :
      (resp : Option Json) (o : Outcome) (s : Supply)
      → SoundOutcome o
      → Ends SoundOutcome (reply_with api resp o s)
  unfolding reply_with
  reply_with-IsSound resp o s sound =
      Ends-after SoundOutcome (push_entry api resp "pyoneer" o.0) _ s (λ _ _. sound)

  act_on-IsSound :
      (a : ℕ) (resp : Option Json) (p : Pyoneer) (decoded : Option Job) (s : Supply)
      → IsFreshIn a p
      → IsSoundPyoneer p
      → Ends SoundOutcome (act_on api (pyoneer_run_job api ans a) resp p decoded s)
  unfolding act_on
  act_on-IsSound a resp p none s fresh sound = fail_with-IsSound err_blueprint resp p s sound
  act_on-IsSound a resp p (some job) s fresh sound =
      Ends-bind SoundOutcome SoundOutcome (pyoneer_run_job api ans a job p) (reply_with api resp) s
        (run_job-IsSound a job p s fresh sound) (λ o s' sound'. reply_with-IsSound resp o s' sound')

  run-IsSound :
      (a : ℕ) (req resp : Option Json) (p : Pyoneer) (s : Supply)
      → IsFreshIn a p
      → IsSoundPyoneer p
      → Ends SoundOutcome (with_blueprint api (pyoneer_run_job api ans a) req resp p s)
  unfolding with_blueprint
  run-IsSound a req resp p s fresh sound =
      Ends-after SoundOutcome (pyoneer_blueprint_decode p req) _ s
        (λ decoded s'. act_on-IsSound a resp p decoded s' fresh sound)

  -- A signal keeps it.
  abbrev KeepsSound : (Pyoneer → Run Pyoneer) → Type 0
  KeepsSound act = (p : Pyoneer) (s : Supply) → IsSoundPyoneer p → Ends IsSoundPyoneer (act p s)

  restart-KeepsSound : KeepsSound (pyoneer_worker_restart ans)
  unfolding pyoneer_worker_restart
  restart-KeepsSound (of_worker (some w)) s sound = worker_restart-IsSound ans w sound
  restart-KeepsSound (of_worker none) s sound = tt
  restart-KeepsSound unset s sound = tt

  start-KeepsSound : KeepsSound (pyoneer_worker_start ans)
  unfolding pyoneer_worker_start
  start-KeepsSound (of_worker (some w)) s sound = worker_start-IsSound ans w sound
  start-KeepsSound (of_worker none) s sound = tt
  start-KeepsSound unset s sound = tt

  stop-KeepsSound : KeepsSound (pyoneer_worker_stop ans)
  unfolding pyoneer_worker_stop
  stop-KeepsSound (of_worker (some w)) s sound = worker_stop-IsSound ans w sound
  stop-KeepsSound (of_worker none) s sound = tt
  stop-KeepsSound unset s sound = tt

  signal_with-IsSound :
      (act : Pyoneer → Run Pyoneer) (resp : Option Json) (p : Pyoneer) (s : Supply)
      → KeepsSound act
      → IsSoundPyoneer p
      → Ends SoundOutcome (signal_with api (act p) resp s)
  unfolding signal_with
  signal_with-IsSound act resp p s keeps sound =
      Ends-bind SoundOutcome IsSoundPyoneer (act p) _ s (keeps p s sound) (λ p' s' sound'. sound')

  run_command-IsSound :
      (a : ℕ) (cmd : String) (req resp : Option Json) (p : Pyoneer) (s : Supply)
      → cmd ≢ "assign"
      → IsFreshIn a p
      → IsSoundPyoneer p
      → Ends SoundOutcome (run_command api ans a cmd req resp p s)
  unfolding run_command
  run_command-IsSound a cmd req resp p s other fresh sound =
      Ends-if SoundOutcome (str_eq cmd "run") _ _ s (run-IsSound a req resp p s fresh sound) (
        Ends-if SoundOutcome (str_eq cmd "get_status") _ _ s
          (Ends-bind SoundOutcome SoundOutcome (pyoneer_worker_get_status api ans p)
            (reply_with api resp) s (get_status-IsSound p s sound)
            (λ o s' sound'. reply_with-IsSound resp o s' sound'))
          (elim (Bool-cases (str_eq cmd "assign")) [
            | inl e ↦ absurd (other ((eq_iff cmd "assign").0 e))
            | inr e ↦ rw e (
                Ends-if SoundOutcome (str_eq cmd "restart") _ _ s
                  (signal_with-IsSound (pyoneer_worker_restart ans) resp p s restart-KeepsSound
                    sound)
                  (Ends-if SoundOutcome (str_eq cmd "start") _ _ s
                    (signal_with-IsSound (pyoneer_worker_start ans) resp p s start-KeepsSound sound)
                    (Ends-if SoundOutcome (str_eq cmd "stop") _ _ s
                      (signal_with-IsSound (pyoneer_worker_stop ans) resp p s stop-KeepsSound sound)
                      (fail_with-IsSound err_cmd resp p s sound))))
          ]))

  pub handle_request-IsSound :
      (token : Option String) (a : ℕ) (req resp : Option Json) (p : Pyoneer) (s : Supply)
      → (¬ AsksAssign req)
      → IsFreshIn a p
      → IsSoundPyoneer p
      → Ends SoundOutcome (handle_request api ans token a req resp p s)
  unfolding handle_request check_request
  handle_request-IsSound token a none resp p s other fresh sound =
      fail_with-IsSound err_json_parse resp p s sound
  handle_request-IsSound token a (some (object fs)) resp p s other fresh sound =
      elim (Option-cases (text_of (find_field fs "command"))) [
        | inl e ↦ rw (check_request, e) (fail_with-IsSound err_json_missing resp p s sound)
        | inr (cmd, e) ↦ elim (Option-cases (text_of (find_field fs "token"))) [
          | inl f ↦ rw (check_request, e, f) (fail_with-IsSound err_json_missing resp p s sound)
          | inr (given, f) ↦
              rw (check_request, e, f)
                (Ends-if SoundOutcome (token_matches token given) _ _ s
                  (run_command-IsSound a cmd (some (object fs)) resp p s
                    (λ q.
                      other
                        (fs, refl, text_of-eq (find_field fs "command") "assign" (e ∙ ap some q)))
                    fresh sound)
                  (fail_with-IsSound err_token resp p s sound))
        ]
      ]
  handle_request-IsSound token a (some _) resp p s other fresh sound =
      fail_with-IsSound err_json_type resp p s sound
