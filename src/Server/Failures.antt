-- ===== src/Server/Failures.antt =====
-- api/server.c: what a creation that fails does to descriptors and files that are not the server's.
use pyoneer.Prelude.{ℕ, ◌+◌, ◌≡◌, ◌≢◌, ◌⊎◌, none, List, ◌∷◌}
use pyoneer.Server.{ServerEndpoint, Sys, Net, open_listener}

-- The first endpoint that gets no descriptor is not the last.
abbrev pub FailsBeforeLast : (ℕ → Net) → ℕ → List ServerEndpoint → Sys → Type 0
FailsBeforeLast net i (e ∷ e' ∷ es) sys =
    ((open_listener (net i) e sys).0 ≡ none)
    ⊎ (((open_listener (net i) e sys).0 ≢ none)
        × FailsBeforeLast net (i + 1) (e' ∷ es) (open_listener (net i) e sys).1)
FailsBeforeLast net i _ sys = ⊥
