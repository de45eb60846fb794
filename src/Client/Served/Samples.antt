-- ===== src/Client/Served/Samples.antt =====
-- api/client.c: requests to a worker that is given.
use pyoneer.Prelude.{
  String, ◌≡◌, ◌≢◌, refl, sym, ap, ◌∙◌, str_eq, eq_iff, true, false, Option, none, some, [], arith,
  inl, inr,
}
use pyoneer.Prelude.Int.{pos, to_int}
use pyoneer.Memory.{Supply}
use pyoneer.Json.{
  Json, Fields, field, end, object, array, nil, string, integer, find_field, json_object_get_value,
}
use pyoneer.Json.Builder.{one_block_api}
use pyoneer.Job.{Job, JobStatus, job_opts_default, job_create, job_set_opts}
use pyoneer.Worker.{Worker, WorkerStatus, worker_create, worker_stop, update_status}
use pyoneer.Engine.{engine_create}
use pyoneer.Worker.Watch.{IsSafe}
use pyoneer.Worker.Safety.Samples.{answers, holder, held-IsBusy}
use pyoneer.Worker.Sound.{IsSound}
use pyoneer.Job.Samples.{mixed_job}
use pyoneer.Pyoneer.{of_worker, pyoneer_blueprint_decode, pyoneer_worker_stop}
use pyoneer.Client.{text_of, handle_request, client_handle_fd, WireApi, message, token_matches}
use pyoneer.Client.Auth.{IsAuthorised, client_handle_fd-unauthorised}
use pyoneer.Client.Refused.{Refused, busy_request_faults}
use pyoneer.Client.Sound.{AsksAssign}
use pyoneer.Job.Codec.{job_decode, decode_tasks, decode_exec_mode, decode_run_mode}
use pyoneer.Client.Served.{done, next, request, Served-IsSafe}

abbrev pub server_token : Option String
server_token = some "secret"

-- A stop with a token that is wrong.
abbrev pub wrong_fields : Fields
wrong_fields = field "command" (string "stop") (field "token" (string "guess") end)

same_member :
    (fs fs' : Fields) (key : String)
    → some (object fs) ≡ some (object fs')
    → find_field fs key ≡ find_field fs' key
unfolding json_object_get_value
same_member fs fs' key e = ap (λ o. json_object_get_value o (some key)) e

same_text : (t u : String) → some (string t) ≡ some (string u) → t ≡ u
same_text t u e = ground arith

some_text : (t u : String) → some t ≡ some u → t ≡ u
some_text t u e = ground arith

apart_texts : (t u : String) → str_eq t u ≡ false → t ≢ u
apart_texts t u e q = ground (arith, eq_iff t u)

wrong-denied : ¬ IsAuthorised server_token (some (object wrong_fields))
unfolding find_field
wrong-denied auth =
    let given : "guess" ≡ auth.given =
      same_text "guess" auth.given
        (same_member wrong_fields auth.fields "token" auth.is_object ∙ auth.has_token) in
    elim auth.matches [
      | inl e ↦ cc
      | inr e ↦ apart_texts "guess" "secret" refl (given ∙ sym (some_text "secret" auth.given e))
    ]

-- Every text parses as that request.
abbrev pub wire : WireApi
wire = record {
  json_parse_ex = λ text s. (some (object wrong_fields), s);
  json_measure = λ v. 2;
  json_serialize = λ v. "{}";
}

client_handle_fd-unauthorised_example :
    (reply : String) × (s' : Supply) × (client_handle_fd one_block_api wire answers server_token 9
        (message "..")
        (of_worker (some (holder 1)))
        []
      ≡ some ((some reply, of_worker (some (holder 1))), s'))
client_handle_fd-unauthorised_example =
    client_handle_fd-unauthorised one_block_api answers server_token 9 wire ".."
      (of_worker (some (holder 1))) [] (λ s. wrong-denied)

-- A run of a job without tasks, sent to a worker whose job has a task that runs.
abbrev run_fields : Fields
run_fields = field "command" (string "run") (
    field "token" (string "secret")
      (field "job" (object (field "id" (integer (pos 5)) (field "tasks" (array nil) end))) end))

abbrev empty_job : Job
empty_job = record {
  id = pos 5;
  status = JobStatus.ready;
  size = 0;
  opts = job_opts_default;
  tasks = [];
}

busy_request_faults_example :
    Refused one_block_api answers 9 empty_job
      (holder 1)
      1
      mixed_job
      held-IsBusy
      (ground arith)
      end
      []
      (handle_request one_block_api answers server_token 9
        (some (object run_fields))
        (some (object end))
        (of_worker (some (holder 1)))
        [])
unfolding find_field token_matches pyoneer_blueprint_decode job_decode job_create to_int
    decode_tasks job_set_opts decode_exec_mode decode_run_mode
busy_request_faults_example =
    busy_request_faults one_block_api answers 9 empty_job (holder 1) 1 mixed_job held-IsBusy
      (ground arith) server_token run_fields end "run" "secret" [] [] (inl refl) refl refl refl refl

-- A worker that is new, and stopped.
abbrev new_worker : Worker
new_worker = record {
  id = pos 2;
  status = WorkerStatus.not_assigned;
  job = none;
  engine = engine_create (λ a. none);
}

abbrev stop_fields : Fields
stop_fields = field "command" (string "stop") (field "token" (string "secret") end)

stop-NotAssign : ¬ AsksAssign (some (object stop_fields))
unfolding find_field
stop-NotAssign (fs, e, f) =
    apart_texts "stop" "assign" refl
      (same_text "stop" "assign" (same_member stop_fields fs "command" e ∙ f))

Served-IsSafe_example : IsSafe new_worker × IsSound new_worker
unfolding worker_create engine_create handle_request find_field worker_stop update_status text_of
    token_matches pyoneer_worker_stop
Served-IsSafe_example =
    Served-IsSafe one_block_api server_token (pos 2) true true (λ a. none) new_worker new_worker
      refl
      (next new_worker new_worker new_worker
        (request answers 9 (some (object stop_fields)) (some (object end)) (some (object end)) [] []
          refl stop-NotAssign refl)
        (done new_worker))
