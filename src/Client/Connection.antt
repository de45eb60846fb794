-- ===== src/Client/Connection.antt =====
-- api/client.c: the whole handler of a connection, with its counters, what it logs and how it ends. The
-- numbers of bytes are those of the texts, a character being one byte here.
mod Account
mod Samples
use pyoneer.Prelude.{
  ℕ, ◌+◌, String, Bool, true, false, Option, none, some, List, [], ◌∷◌, ◌++◌, ltb, if◌then◌else◌,
}
use pyoneer.Prelude.Texts.{◌^^◌, size, print_nat}
use pyoneer.Memory.{Run, pure, fault, deref, call, ◌>>=◌}
use pyoneer.Json.{Json, object, string, find_field, json_object_get_value}
use pyoneer.Json.Builder.{JsonApi}
use pyoneer.Engine.{Answers}
use pyoneer.Pyoneer.{Pyoneer}
use pyoneer.Logger.{logger_debug, logger_info, logger_warn, logger_error}
use pyoneer.Client.{
  text_of, token_matches, handle_request, Received, eof, failed, message, WireApi, buflen,
  internal_reply, sent_text, Outcome,
}
use pyoneer.Client.Peer.{Address, is_unix, next_conn_id, format_peer}

-- `conn_ctx`
pub record ConnCtx : Type 0 where
  pub conn_id : ℕ
  pub seq : ℕ
  pub peer : String
  pub bytes_in : ℕ
  pub bytes_out : ℕ
  pub msgs : ℕ

-- `req_ctx`, less the number that it shares with the connection.
pub record ReqCtx : Type 0 where
  pub cmd : Option String
  pub user : Option String

-- A call of the logger.
pub record Entry : Type 0 where
  pub level : ℕ
  pub text : String

abbrev pub entry : ℕ → String → List Entry
entry level text = record { level = level; text = text } ∷ []

-- `x ? x : "?"`
abbrev pub or_mark : Option String → String
or_mark none = "?"
or_mark (some t) = t

abbrev pub conn_text : ConnCtx → String
conn_text c = "conn=" ^^ print_nat c.conn_id

abbrev pub seq_text : ConnCtx → String
seq_text c = conn_text c ^^ " seq=" ^^ print_nat c.seq

-- The end of the three lines that close a connection.
abbrev pub totals : ConnCtx → String
totals c =
    " msgs="
    ^^ print_nat c.msgs
    ^^ " bytes_in="
    ^^ print_nat c.bytes_in
    ^^ "B bytes_out="
    ^^ print_nat c.bytes_out
    ^^ "B"

abbrev pub closing : ConnCtx → String → String
closing c reason = conn_text c ^^ " close peer=" ^^ c.peer ^^ " reason=" ^^ reason ^^ totals c

-- `resp_error_string`
unfoldable pub resp_error_string : Option Json → Option String
resp_error_string none = none
resp_error_string (some (object fs)) =
    text_of (json_object_get_value (some (object fs)) (some "Error"))
resp_error_string (some v) = none

abbrev pub received_entry : ConnCtx → String → List Entry
received_entry c text =
    entry logger_debug (seq_text c ^^ " event=recv in=" ^^ print_nat (size text) ^^ "B")

-- What the checks of the token leave in the context of a request with a command, and what they log.
unfoldable pub token_checked :
    ConnCtx → Option String → String → Option String → ReqCtx × List Entry
token_checked c token cmd none = (
  record { cmd = some cmd; user = none },
  entry logger_warn (seq_text c ^^ " event=auth_err err=TOKEN_MISSING_OR_BAD_TYPE cmd=" ^^ cmd),
)
token_checked c token cmd (some given) =
    if token_matches token given
    then (
      record { cmd = some cmd; user = some "authed" },
      entry logger_debug (seq_text c ^^ " event=auth_ok user=authed"),
    )
    else (
      record { cmd = some cmd; user = none },
      entry logger_warn (seq_text c ^^ " event=auth_err err=INVALID_TOKEN cmd=" ^^ cmd),
    )

abbrev pub no_req : ReqCtx
no_req = record { cmd = none; user = none }

-- The same for the command, whose text is given.
unfoldable pub command_checked :
    ConnCtx → Option String → Option String → Option String → ReqCtx × List Entry
unfolding token_checked
command_checked c token none given =
    (no_req, entry logger_warn (seq_text c ^^ " event=parse_err err=CMD_MISSING_OR_BAD_TYPE"))
command_checked c token (some cmd) given =
    let (r, log) = token_checked c token cmd given in
    (r, entry logger_debug (seq_text c ^^ " event=parse_ok cmd=" ^^ cmd) ++ log)

-- The context and the log of a request up to "Run Command".
unfoldable pub checked : ConnCtx → Option String → Option Json → ReqCtx × List Entry
unfolding command_checked
checked c token none = (no_req, entry logger_warn (seq_text c ^^ " event=parse_err err=JSON_PARSE"))
checked c token (some (object fs)) =
    command_checked c token (text_of (find_field fs "command")) (text_of (find_field fs "token"))
checked c token (some v) =
    (no_req, entry logger_warn (seq_text c ^^ " event=parse_err err=JSON_NOT_OBJECT"))

-- The line about the reply.
unfoldable pub reply_entry : ConnCtx → ReqCtx → Option String → ℕ → List Entry
reply_entry c r err out =
    let about =
      conn_text c
      ^^ " peer="
      ^^ c.peer
      ^^ " seq="
      ^^ print_nat c.seq
      ^^ " user="
      ^^ or_mark r.user
      ^^ " cmd="
      ^^ or_mark r.cmd in
    elim err [
      | none ↦ entry logger_info (about ^^ " ok out=" ^^ print_nat out ^^ "B")
      | some e ↦ entry logger_warn (about ^^ " err=" ^^ e ^^ " out=" ^^ print_nat out ^^ "B")
    ]

-- How the handler ends: what its `send` has taken, if it was called and did not fail, and whether it closed the descriptor.
pub record Connection : Type 0 where
  pub ctx : ConnCtx
  pub sent : Option String
  pub log : List Entry
  pub closed : Bool
  pub pyoneer : Pyoneer

-- What the system calls answer: `getsockname`, `getpeername`, `recv`, `send`, and `strerror`.
pub record Socket : Type 0 where
  pub sockname : Option Address
  pub peername : Option Address
  pub received : Received
  pub send_ok : Bool
  pub error : String

-- "Serialize response" and "Send response", from `send_resp` on.
unfoldable pub send_resp :
    WireApi → Socket → ConnCtx → ReqCtx → List Entry → Json → Pyoneer → Connection
unfolding reply_entry resp_error_string
send_resp wire sock c r log reply p =
    let text = sent_text wire reply in
    let c' = record c { bytes_out = c.bytes_out + size text } in
    let too_large =
      if ltb buflen (wire.json_measure reply)
      then entry logger_error
          (seq_text c ^^ " event=internal_err err=RESP_TOO_LARGE cmd=" ^^ or_mark r.cmd)
      else [] in
    record {
      ctx = c';
      sent = if sock.send_ok then some text else none;
      log =
          log
          ++ too_large
          ++ reply_entry c' r (resp_error_string (some reply)) (size text)
          ++ (if sock.send_ok
              then []
              else entry logger_warn (closing c' ("SEND_ERR err=" ^^ sock.error)));
      closed = true;
      pyoneer = p;
    }

module _ (api : JsonApi) (wire : WireApi) (ans : Answers) (token : Option String) (a : ℕ)
    (sock : Socket) where
  -- The round of the loop with its response object, which may be NULL.
  unfoldable pub answer_with :
      ConnCtx → List Entry → String → Pyoneer → Option Json → Run Connection
  unfolding handle_request checked send_resp
  answer_with c log text p none = pure (record {
    ctx = c;
    sent = if sock.send_ok then some internal_reply else none;
    log = log ++ entry logger_error (seq_text c ^^ " event=internal_err err=RESP_ALLOC_FAILED");
    closed = true;
    pyoneer = p;
  })
  answer_with c log text p (some r) = do
    req ← call (wire.json_parse_ex text)
    (resp', p') ← handle_request api ans token a req (some r) p
    reply ← deref resp'
    pure (send_resp wire sock c (checked c token req).0 (log ++ (checked c token req).1) reply p')

  -- A round of the loop whose message has come; the contexts count it already.
  unfoldable pub answer : ConnCtx → List Entry → String → Pyoneer → Run Connection
  unfolding answer_with
  answer c log text p = do resp ← call api.object_new; answer_with c log text p resp

  -- The connection ends without a message.
  abbrev pub hang_up : ConnCtx → List Entry → Pyoneer → Connection
  hang_up c log p = record { ctx = c; sent = none; log = log; closed = true; pyoneer = p }

  unfoldable pub receive : Received → ConnCtx → List Entry → Pyoneer → Run Connection
  unfolding answer
  receive eof c log p = pure (hang_up c (log ++ entry logger_info (closing c "EOF")) p)
  receive failed c log p =
      pure (hang_up c (log ++ entry logger_warn (closing c ("RECV_ERR err=" ^^ sock.error))) p)
  receive (message text) c log p =
      let c' = record c { seq = c.seq + 1; msgs = c.msgs + 1; bytes_in = c.bytes_in + size text } in
      answer c' (log ++ received_entry c' text) text p

  -- `client_handle_fd` of the connection with this number.
  unfoldable pub handle_connection : ℕ → Pyoneer → Run Connection
  unfolding receive format_peer is_unix
  handle_connection conn_id p =
      let c : ConnCtx = record {
        conn_id = conn_id;
        seq = 0;
        peer = format_peer (is_unix sock.sockname) sock.peername;
        bytes_in = 0;
        bytes_out = 0;
        msgs = 0;
      } in
      receive sock.received c (entry logger_info (conn_text c ^^ " accept peer=" ^^ c.peer)) p

  -- The whole handler, with the counter that the connections share.
  unfoldable pub handle_next : ℕ → Pyoneer → Run (Connection × ℕ)
  unfolding handle_connection next_conn_id
  handle_next id p = elim (next_conn_id id) [
    | none ↦ fault
    | some (conn_id, next) ↦ do c ← handle_connection conn_id p; pure (c, next)
  ]
