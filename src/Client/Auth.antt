-- ===== src/Client/Auth.antt =====
-- api/client.c: what stands between a request and the commands.
use pyoneer.Prelude.{
  ℕ, String, ◌≡◌, ◌⊎◌, inl, inr, refl, ap, sym, true, Option, none, some, arith, eq_iff, Bool-cases,
}
use pyoneer.Memory.{Supply}
use pyoneer.Json.{Json, Fields, end, object, string, find_field, push_field}
use pyoneer.Json.Builder.{JsonApi}
use pyoneer.Json.Push.Cases.{add_string-Adds}
use pyoneer.Engine.{Answers}
use pyoneer.Pyoneer.{Pyoneer}
use pyoneer.Client.{
  ApiErr, err_json_parse, err_json_type, err_json_missing, err_token, api_err_msg, text_of,
  token_matches, Outcome, fail_with, sent_text, internal_reply, check_request, handle_request,
  WireApi, message, client_handle_fd,
}

-- The request is an object whose first members of these names are a command and a token, both
-- strings, and the token is that of the server, if the server has one.
pub record IsAuthorised (token : Option String) (req : Option Json) : Type 0 where
  pub fields : Fields
  pub command : String
  pub given : String
  pub is_object : req ≡ some (object fields)
  pub has_command : find_field fields "command" ≡ some (string command)
  pub has_token : find_field fields "token" ≡ some (string given)
  pub matches : (token ≡ none) ⊎ (token ≡ some given)

-- The response with the error, or as it was, where an allocation fails.
abbrev pub IsErrorReply : Fields → Option Json → Type 0
IsErrorReply fs resp =
    (resp ≡ some (object fs))
    ⊎ ((err : ApiErr) × (resp ≡ some (object (push_field fs "Error" (string (api_err_msg err))))))

-- The outcome is an error that leaves the pyoneer.
abbrev IsRefusal : Fields → Pyoneer → Option (Outcome × Supply) → Type 0
IsRefusal fs p o =
    (resp : Option Json) × (s' : Supply) × (o ≡ some ((resp, p), s')) × IsErrorReply fs resp

module _ (api : JsonApi) where
  fail_with-IsRefusal :
      (err : ApiErr) (fs : Fields) (p : Pyoneer) (s : Supply)
      → IsRefusal fs p (fail_with api err (some (object fs)) p s)
  unfolding fail_with
  fail_with-IsRefusal err fs p s =
      let (s', added) = add_string-Adds api fs "Error" (api_err_msg err) s in
      elim added [
        | inl e ↦ (some (object fs), s', ground arith, inl refl)
        | inr e ↦ (
          some (object (push_field fs "Error" (string (api_err_msg err)))),
          s',
          ground arith,
          inr (err, refl),
        )
      ]

text_of-cases :
    (v : Option Json)
    → (text_of v ≡ none) ⊎ ((t : String) × (text_of v ≡ some t) × (v ≡ some (string t)))
unfolding text_of
text_of-cases (some (string t)) = inr (t, refl, refl)
text_of-cases none = inl refl
text_of-cases (some _) = inl refl

-- A token that matches is the server's, if it has one.
token_matches-true :
    (token : Option String) (given : String)
    → token_matches token given ≡ true
    → (token ≡ none) ⊎ (token ≡ some given)
unfolding token_matches
token_matches-true none given e = inl refl
token_matches-true (some t) given e = inr (ap some (sym ((eq_iff given t).0 e)))

reply_of : (fs : Fields) (resp : Option Json) → IsErrorReply fs resp → (j : Json) × (resp ≡ some j)
reply_of fs resp (inl e) = (object fs, e)
reply_of fs resp (inr (err, e)) = (object (push_field fs "Error" (string (api_err_msg err))), e)

module _ (api : JsonApi) (ans : Answers) (token : Option String) (a : ℕ) where
  check_request-IsRefusal :
      (fs : Fields) (rs : Fields) (p : Pyoneer) (s : Supply)
      → (¬ IsAuthorised token (some (object fs)))
      → IsRefusal rs p (check_request api ans token a fs (some (object rs)) p s)
  unfolding check_request
  check_request-IsRefusal fs rs p s denied = elim (text_of-cases (find_field fs "command")) [
    | inl e ↦ rw (check_request, e) (fail_with-IsRefusal api err_json_missing rs p s)
    | inr (cmd, e, at_command) ↦ elim (text_of-cases (find_field fs "token")) [
      | inl f ↦ rw (check_request, e, f) (fail_with-IsRefusal api err_json_missing rs p s)
      | inr (given, f, at_token) ↦ elim (Bool-cases (token_matches token given)) [
        | inl g ↦ absurd (
            denied (record {
              fields = fs;
              command = cmd;
              given = given;
              is_object = refl;
              has_command = at_command;
              has_token = at_token;
              matches = token_matches-true token given g;
            }))
        | inr g ↦ rw (check_request, e, f, g) (fail_with-IsRefusal api err_token rs p s)
      ]
    ]
  ]

  pub handle_request-unauthorised :
      (req : Option Json) (rs : Fields) (p : Pyoneer) (s : Supply)
      → (¬ IsAuthorised token req)
      → (resp : Option Json) × (s' : Supply) × (handle_request api ans token a req
            (some (object rs))
            p
            s
          ≡ some ((resp, p), s'))
        × IsErrorReply rs resp
  unfolding handle_request
  handle_request-unauthorised none rs p s denied = fail_with-IsRefusal api err_json_parse rs p s
  handle_request-unauthorised (some (object fs)) rs p s denied =
      check_request-IsRefusal fs rs p s denied
  handle_request-unauthorised (some _) rs p s denied = fail_with-IsRefusal api err_json_type rs p s

  -- A connection whose message is not authorised, however it parses, leaves the pyoneer as it was
  -- and is answered, whatever allocations fail.
  pub client_handle_fd-unauthorised :
      (wire : WireApi) (text : String) (p : Pyoneer) (s : Supply)
      → ((s' : Supply) → ¬ IsAuthorised token (wire.json_parse_ex text s').0)
      → (reply : String) × (s' : Supply) × (client_handle_fd api wire ans token a (message text) p s
          ≡ some ((some reply, p), s'))
  unfolding client_handle_fd
  client_handle_fd-unauthorised wire text p s denied = elim (api.object_new_lem.0 s) [
    | inl e ↦ (internal_reply, (api.object_new s).1, ground arith)
    | inr e ↦
        let s₁ = (api.object_new s).1 in
        let parsed = wire.json_parse_ex text s₁ in
        let (resp, s', handled, is_error) =
          handle_request-unauthorised parsed.0 end p parsed.1 (denied s₁) in
        let (reply, is_reply) = reply_of end resp is_error in
        (sent_text wire reply, s', ground (arith, handled, is_reply, e))
  ]
