-- ===== src/Client/Connection/Account.antt =====
-- api/client.c: what the handler of a connection keeps account of.
use pyoneer.Prelude.{ℕ, ◌≡◌, String, Bool, true, Option, none, some, List, ◌++◌, ◌⊎◌, if◌then◌else◌}
use pyoneer.Prelude.Texts.{size}
use pyoneer.Memory.{Run, pure}
use pyoneer.Json.{Json}
use pyoneer.Json.Builder.{JsonApi}
use pyoneer.Engine.{Answers}
use pyoneer.Pyoneer.{Pyoneer}
use pyoneer.Client.{Received, message, WireApi, internal_reply}
use pyoneer.Client.Connection.{ConnCtx, Entry, Connection, Socket, checked, send_resp}

-- What the counters and the descriptor of a connection are in the end.
-- The reply is the one that the handler gave to `send`, which answers whether it took it.
abbrev pub IsAccounted : Bool → Received → Connection → Type 0
IsAccounted send_ok (message text) c =
    (c.closed ≡ true)
    × (c.ctx.msgs ≡ 1)
    × (c.ctx.seq ≡ 1)
    × (c.ctx.bytes_in ≡ size text)
    × ((reply : String) × (c.sent ≡ (if send_ok then some reply else none))
        × ((c.ctx.bytes_out ≡ size reply) ⊎ ((reply ≡ internal_reply) × (c.ctx.bytes_out ≡ 0))))
IsAccounted send_ok _ c =
    (c.closed ≡ true)
    × (c.sent ≡ none)
    × (c.ctx.msgs ≡ 0)
    × (c.ctx.seq ≡ 0)
    × (c.ctx.bytes_in ≡ 0)
    × (c.ctx.bytes_out ≡ 0)

module _ (api : JsonApi) (wire : WireApi) (ans : Answers) (token : Option String) (a : ℕ)
    (sock : Socket) where
  -- The end of a round.
  abbrev finish : ConnCtx → List Entry → Option Json → Pyoneer → Json → Run Connection
  finish c log req p reply =
      pure (send_resp wire sock c (checked c token req).0 (log ++ (checked c token req).1) reply p)

  -- A connection whose message has come, and not been answered.
  abbrev Came : String → ConnCtx → Type 0
  Came text c = (c.msgs ≡ 1) × (c.seq ≡ 1) × (c.bytes_in ≡ size text) × (c.bytes_out ≡ 0)
