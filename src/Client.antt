-- ===== src/Client.antt =====
-- api/client.c: what the handler of a connection does with the one message that it reads: it checks
-- the request, runs the command, and sends the reply.
mod Names
pub mod Auth
pub mod Refused
pub mod Sound
pub mod Served
pub mod Peer
pub mod Connection
pub use Names.*
use pyoneer.Prelude.{ℕ, String, Bool, true, false, Option, none, some, str_eq, ltb, if◌then◌else◌}
use pyoneer.Memory.{Supply, Run, pure, deref, call, ◌>>=◌}
use pyoneer.Json.{Json, Fields, object, string, find_field}
use pyoneer.Json.Builder.{JsonApi}
use pyoneer.Json.Push.{add_string, push_entry}
use pyoneer.Job.{Job}
use pyoneer.Engine.{Answers}
use pyoneer.Pyoneer.{
  Pyoneer, pyoneer_blueprint_decode, pyoneer_worker_get_status, pyoneer_run_job, pyoneer_assign_job,
  pyoneer_worker_restart, pyoneer_worker_start, pyoneer_worker_stop,
}

unfoldable pub api_err_msg : ApiErr → String
api_err_msg err_internal = "API: internal error"
api_err_msg err_shutting_down = "API: shutting down"
api_err_msg err_cmd = "API: command error"
api_err_msg err_blueprint = "API: blueprint error"
api_err_msg err_signal = "API: signal error"
api_err_msg err_json_parse = "API: invalid JSON payload"
api_err_msg err_json_type = "API: invalid JSON type"
api_err_msg err_json_missing = "API: missing JSON value"
api_err_msg err_token = "API: invalid token"

-- The text of a member that is there and is a string.
unfoldable pub text_of : Option Json → Option String
text_of (some (string s)) = some s
text_of v = none

-- `token && strcmp(..) != 0` refuses; a server without a token takes any.
unfoldable pub token_matches : Option String → String → Bool
token_matches none given = true
token_matches (some t) given = str_eq given t

-- The response, and the pyoneer behind the command.
abbrev pub Outcome : Type 0
Outcome = Option Json × Pyoneer

module _ (api : JsonApi) where
  unfoldable pub fail_with : ApiErr → Option Json → Pyoneer → Run Outcome
  fail_with err resp p = do
    resp' ← add_string api resp "Error" (some (api_err_msg err))
    pure (resp', p)

  -- The entry that a command adds.
  unfoldable pub reply_with : Option Json → Outcome → Run Outcome
  reply_with resp (status, p) = do resp' ← push_entry api resp "pyoneer" status; pure (resp', p)

  -- "run" and "assign" decode the blueprint first.
  unfoldable pub act_on :
      (Job → Pyoneer → Run Outcome) → Option Json → Pyoneer → Option Job → Run Outcome
  unfolding fail_with reply_with
  act_on act resp p none = fail_with err_blueprint resp p
  act_on act resp p (some job) = do outcome ← act job p; reply_with resp outcome

  unfoldable pub with_blueprint :
      (Job → Pyoneer → Run Outcome) → Option Json → Option Json → Pyoneer → Run Outcome
  unfolding act_on
  with_blueprint act req resp p = do
    decoded ← pyoneer_blueprint_decode p req
    act_on act resp p decoded

  unfoldable pub signal_with : Run Pyoneer → Option Json → Run Outcome
  signal_with act resp = do p ← act; pure (resp, p)

  -- "Run Command". A job that the request brings gets the address `a`.
  unfoldable pub run_command :
      Answers → ℕ → String → Option Json → Option Json → Pyoneer → Run Outcome
  unfolding with_blueprint signal_with
  run_command ans a cmd req resp p =
      if str_eq cmd "run"
      then with_blueprint (pyoneer_run_job api ans a) req resp p
      else if str_eq cmd "get_status"
      then (do outcome ← pyoneer_worker_get_status api ans p; reply_with resp outcome)
      else if str_eq cmd "assign"
      then with_blueprint (pyoneer_assign_job api ans a) req resp p
      else if str_eq cmd "restart"
      then signal_with (pyoneer_worker_restart ans p) resp
      else if str_eq cmd "start"
      then signal_with (pyoneer_worker_start ans p) resp
      else if str_eq cmd "stop"
      then signal_with (pyoneer_worker_stop ans p) resp
      else fail_with err_cmd resp p

  -- "Get command" and "Get token" of a request that is an object.
  unfoldable pub check_request :
      Answers → Option String → ℕ → Fields → Option Json → Pyoneer → Run Outcome
  unfolding run_command
  check_request ans token a fs resp p = elim (text_of (find_field fs "command")) [
    | none ↦ fail_with err_json_missing resp p
    | some cmd ↦ elim (text_of (find_field fs "token")) [
      | none ↦ fail_with err_json_missing resp p
      | some given ↦
          if token_matches token given
          then run_command ans a cmd (some (object fs)) resp p
          else fail_with err_token resp p
    ]
  ]

  -- From "Parse request" to `send_resp`.
  unfoldable pub handle_request :
      Answers → Option String → ℕ → Option Json → Option Json → Pyoneer → Run Outcome
  unfolding check_request
  handle_request ans token a none resp p = fail_with err_json_parse resp p
  handle_request ans token a (some (object fs)) resp p = check_request ans token a fs resp p
  handle_request ans token a (some v) resp p = fail_with err_json_type resp p

-- What `recv` gives.
pub data Received : Type 0 where
  eof : Received
  failed : Received
  message : String → Received

-- The calls of the JSON library that read and write text (shared/json.h, shared/json-builder.h).
pub record WireApi : Type 0 where
  pub json_parse_ex : String → Supply → Option Json × Supply
  pub json_measure : Json → ℕ
  pub json_serialize : Json → String

abbrev pub buflen : ℕ
buflen = 4096

-- `snprintf` of an error that has no response object.
abbrev pub internal_reply : String
internal_reply = "{\"Error\":API: internal error}"

-- "Serialize response"
abbrev pub sent_text : WireApi → Json → String
sent_text wire reply =
    if ltb buflen (wire.json_measure reply) then internal_reply else wire.json_serialize reply

-- The handler of a connection, which ends with its first message: the text that it sends, if any.
unfoldable pub client_handle_fd :
    JsonApi
    → WireApi
    → Answers
    → Option String
    → ℕ
    → Received
    → Pyoneer
    → Run (Option String × Pyoneer)
unfolding handle_request
client_handle_fd api wire ans token a eof p = pure (none, p)
client_handle_fd api wire ans token a failed p = pure (none, p)
client_handle_fd api wire ans token a (message text) p = do
  resp ← call api.object_new
  elim resp [
    | none ↦ pure (some internal_reply, p)
    | some r ↦ do
      req ← call (wire.json_parse_ex text)
      (resp', p') ← handle_request api ans token a req (some r) p
      reply ← deref resp'
      pure (some (sent_text wire reply), p')
  ]
