-- ===== src/Client/Refused.antt =====
-- api/client.c: what becomes of a command that the worker refuses.
use pyoneer.Prelude.{
  ℕ, String, ◌≡◌, ◌≢◌, refl, true, false, Option, none, some, arith, ◌⊎◌, inl, inr, Bool-cases,
  if◌then◌else◌,
}
use pyoneer.Memory.{Supply, Run}
use pyoneer.Json.{Json, Fields, object, string, find_field}
use pyoneer.Json.Builder.{JsonApi}
use pyoneer.Json.Push.{add_string, add_integer, push_entry}
use pyoneer.Job.{Job}
use pyoneer.Engine.{Answers}
use pyoneer.Worker.{Worker, update_status, run_locked, assign_locked}
use pyoneer.Worker.Commands.{worker_run, worker_assign}
use pyoneer.Worker.Busy.{IsBusy, busy_refuses}
use pyoneer.Pyoneer.{
  Pyoneer, of_worker, store_job, pyoneer_blueprint_decode, pyoneer_run_job, pyoneer_assign_job,
}
use pyoneer.Client.{
  Outcome, text_of, token_matches, with_blueprint, run_command, check_request, handle_request,
}

-- A job that is stored elsewhere leaves a worker busy.
store_job-IsBusy :
    (w : Worker) (b : ℕ) (held : Job) (a : ℕ) (job : Job)
    → IsBusy w b held
    → a ≢ b
    → IsBusy (store_job a job w) b held
store_job-IsBusy w b held a job busy apart = record {
  holds = busy.holds;
  stored = ground (arith, busy.stored);
  runs = busy.runs;
}

module _ (api : JsonApi) (ans : Answers) (a : ℕ) (job : Job) (w : Worker) (b : ℕ) (held : Job)
    (busy : IsBusy w b held) (apart : a ≢ b) where
  abbrev kept : Worker
  kept = update_status (store_job a job w)

  refuses :
      (run_locked ans a (store_job a job w) ≡ (false, kept))
      × (assign_locked a (store_job a job w) ≡ (false, kept))
  refuses =
      let all =
        busy_refuses ans a (store_job a job w) b held a (store_job-IsBusy w b held a job busy apart)
          apart in
      (all.0, all.1)

  -- The worker after the refusal: its status is updated if the lock was taken.
  abbrev pub after_refusal : Worker
  after_refusal = if ans.locked then kept else store_job a job w

  run_gives_null :
      (s : Supply)
      → pyoneer_run_job api ans a job (of_worker (some w)) s
        ≡ some ((none, of_worker (some after_refusal)), s)
  unfolding pyoneer_run_job worker_run add_string add_integer
  run_gives_null s = elim (Bool-cases ans.locked) [
    | inl e ↦ rw (refuses.0, e) refl
    | inr e ↦ rw e refl
  ]

  assign_gives_null :
      (s : Supply)
      → pyoneer_assign_job api ans a job (of_worker (some w)) s
        ≡ some ((none, of_worker (some after_refusal)), s)
  unfolding pyoneer_assign_job worker_assign add_string add_integer
  assign_gives_null s = elim (Bool-cases ans.locked) [
    | inl e ↦ rw (refuses.1, e) refl
    | inr e ↦ rw e refl
  ]

  -- The command that a request asks for is one that brings a job.
  abbrev BringsJob : String → Type 0
  BringsJob cmd = (cmd ≡ "run") ⊎ (cmd ≡ "assign")

  -- What a push of NULL into the response does: it faults, or it is given up and the response stays.
  abbrev pub Refused : Fields → Supply → Option (Outcome × Supply) → Type 0
  Refused rs s r =
      (((api.object_push_null (object rs) "pyoneer" s).0 ≡ true) × (r ≡ none))
      ⊎ (((api.object_push_null (object rs) "pyoneer" s).0 ≡ false)
          × (r
              ≡ some (
                (some (object rs), of_worker (some after_refusal)),
                (api.object_push_null (object rs) "pyoneer" s).1,
              )))

  with_blueprint-Refused :
      (act : Job → Pyoneer → Run Outcome) (req : Option Json) (rs : Fields) (s s' : Supply)
      → pyoneer_blueprint_decode (of_worker (some w)) req s ≡ some (some job, s')
      → act job (of_worker (some w)) s' ≡ some ((none, of_worker (some after_refusal)), s')
      → Refused rs s' (with_blueprint api act req (some (object rs)) (of_worker (some w)) s)
  unfolding with_blueprint push_entry
  with_blueprint-Refused act req rs s s' decoded null =
      elim (Bool-cases (api.object_push_null (object rs) "pyoneer" s').0) [
        | inl e ↦ inl (e, ground (arith, decoded, null, e))
        | inr e ↦ inr (e, ground (arith, decoded, null, e))
      ]

  run_command-Refused :
      (cmd : String) (req : Option Json) (rs : Fields) (s s' : Supply)
      → BringsJob cmd
      → pyoneer_blueprint_decode (of_worker (some w)) req s ≡ some (some job, s')
      → Refused rs s' (run_command api ans a cmd req (some (object rs)) (of_worker (some w)) s)
  unfolding run_command
  run_command-Refused cmd req rs s s' (inl e) decoded =
      rw e
        (with_blueprint-Refused (pyoneer_run_job api ans a) req rs s s' decoded (run_gives_null s'))
  run_command-Refused cmd req rs s s' (inr e) decoded = rw e (
      with_blueprint-Refused (pyoneer_assign_job api ans a) req rs s s' decoded
        (assign_gives_null s'))

  -- An authorised run or assign whose job decodes, sent to a worker that is busy with a job at
  -- another address: the worker refuses it with NULL, which the handler pushes into its response
  -- without a test. The handler faults where that push comes to the value, a null dereference that takes the
  -- server down; only where the push has returned before, for want of memory for the copy of the name, the
  -- response is left as it was, without a word of the refusal. The worker is then the one that refuses. This is so whatever was allocated
  -- before, and whether or not the lock was taken.
  pub busy_request_faults :
      (token : Option String) (fs rs : Fields) (cmd given : String) (s s' : Supply)
      → BringsJob cmd
      → find_field fs "command" ≡ some (string cmd)
      → find_field fs "token" ≡ some (string given)
      → token_matches token given ≡ true
      → pyoneer_blueprint_decode (of_worker (some w)) (some (object fs)) s ≡ some (some job, s')
      → Refused rs s' (
          handle_request api ans token a
            (some (object fs))
            (some (object rs))
            (of_worker (some w))
            s)
  unfolding handle_request text_of
  busy_request_faults token fs rs cmd given s s' brings at_command at_token matched decoded =
      rw (check_request, at_command, at_token, matched)
        (run_command-Refused cmd (some (object fs)) rs s s' brings decoded)
