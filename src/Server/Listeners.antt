-- ===== src/Server/Listeners.antt =====
-- api/server.c: which descriptors and socket files the server leaves.
pub mod Samples
use pyoneer.Prelude.{
  ℕ, zero, suc, ◌+◌, String, ◌≡◌, ◌≢◌, ◌⊎◌, inl, inr, refl, sym, ap, ◌∙◌, ◌&&◌, Bool, true, false,
  Option, none, some, List, [], ◌∷◌, ◌==◌, str_eq, length, arith, Bool-cases, Option-cases,
  if◌then◌else◌, eq_refl,
}
use pyoneer.Prelude.Int.{ℤ, pos, negsuc}
use pyoneer.Server.{
  EndpointType, ServerEndpoint, ep_unix, ep_tcp, Listener, Sys, set_fd, set_file, Attempt, Net,
  make_unix_listener, try_addresses, make_tcp_listener, open_listener, blank, blanks, Opened,
  init_listeners, close_fd, unlink_path, server_listeners_destroy, ServerAnswers, ServerConfig,
  Server, create_with, server_create, server_destroy,
}

-- A descriptor that is open after and was not before is the one that was found.
abbrev OpensOnly : Sys → Option ℕ × Sys → Type 0
OpensOnly sys r = (n : ℕ) → r.1.open_fds n ≡ true → (sys.open_fds n ≡ true) ⊎ (r.0 ≡ some n)

make_unix_listener-OpensOnly :
    (a : Attempt) (path : String) (sys : Sys) → OpensOnly sys (make_unix_listener a path sys)
unfolding make_unix_listener
make_unix_listener-OpensOnly a path sys n h = ground arith

try_addresses-OpensOnly :
    (attempts : List Attempt) (sys : Sys) → OpensOnly sys (try_addresses attempts sys)
unfolding try_addresses
try_addresses-OpensOnly [] sys n h = inl h
try_addresses-OpensOnly (a ∷ more) sys n h = elim (Option-cases a.socket) [
  | inl e ↦ ground (arith, e, try_addresses-OpensOnly more sys n)
  | inr (fd, e) ↦
      ground (arith, e, try_addresses-OpensOnly more (set_fd fd false (set_fd fd true sys)) n)
]

open_listener-OpensOnly :
    (net : Net) (e : ServerEndpoint) (sys : Sys) → OpensOnly sys (open_listener net e sys)
unfolding open_listener make_tcp_listener
open_listener-OpensOnly net e sys n h = elim (Option-cases e.path) [
  | inl x ↦ elim (Option-cases net.addresses) [
    | inl y ↦ ground (arith, x, y)
    | inr (found, y) ↦ ground (arith, x, y, try_addresses-OpensOnly found sys n)
  ]
  | inr (path, x) ↦ elim (Option-cases net.addresses) [
    | inl y ↦ ground (arith, x, y, make_unix_listener-OpensOnly net.local path sys n)
    | inr (found, y) ↦ ground (
      arith,
      x,
      y,
      make_unix_listener-OpensOnly net.local path sys n,
      try_addresses-OpensOnly found sys n,
    )
  ]
]

-- Some listener of the list has the descriptor.
abbrev HasFd : ℕ → List Listener → Type 0
HasFd n [] = ⊥
HasFd n (l ∷ ls) = (l.fd ≡ pos n) ⊎ HasFd n ls

init_listeners-opens :
    (net : ℕ → Net) (i : ℕ) (es : List ServerEndpoint) (sys : Sys) (n : ℕ)
    → (init_listeners net i es sys).sys.open_fds n ≡ true
    → (sys.open_fds n ≡ true) ⊎ HasFd n (init_listeners net i es sys).listeners
unfolding init_listeners
init_listeners-opens net i [] sys n h = inl h
init_listeners-opens net i (e ∷ es) sys n h = ground (
  arith,
  open_listener-OpensOnly (net i) e sys n,
  init_listeners-opens net (i + 1) es (open_listener (net i) e sys).1 n,
)

-- Closing opens nothing, and leaves no descriptor of a listener open.
pub destroy-closes :
    (ls : List Listener) (sys : Sys) (n : ℕ)
    → (server_listeners_destroy ls sys).open_fds n ≡ true
    → (sys.open_fds n ≡ true) × (¬ HasFd n ls)
unfolding server_listeners_destroy
destroy-closes [] sys n h = (h, λ x. x)
destroy-closes (l ∷ ls) sys n h =
    ground (arith, destroy-closes ls (unlink_path l.cfg (close_fd l.fd sys)) n h)

destroyed-within :
    (net : ℕ → Net) (es : List ServerEndpoint) (sys : Sys) (n : ℕ)
    → (server_listeners_destroy
          (init_listeners net 0 es sys).listeners
          (init_listeners net 0 es sys).sys).open_fds
        n
      ≡ true
    → sys.open_fds n ≡ true
destroyed-within net es sys n h =
    let closes =
      destroy-closes (init_listeners net 0 es sys).listeners (init_listeners net 0 es sys).sys n
        h in
    elim (init_listeners-opens net 0 es sys n closes.0) [
      | inl before ↦ before
      | inr has ↦ absurd (closes.1 has)
    ]

create_with-within :
    (ans : ServerAnswers) (cfg : ServerConfig) (es : List ServerEndpoint) (sys : Sys) (n : ℕ)
    → (create_with ans cfg es sys).0 ≡ none
    → (create_with ans cfg es sys).1.undefined ≡ false
    → (create_with ans cfg es sys).1.open_fds n ≡ true
    → sys.open_fds n ≡ true
unfolding create_with
create_with-within ans cfg es sys n e defined h = ground (arith, destroyed-within ans.net es sys n)

pub failed_create_leaks_nothing :
    (ans : ServerAnswers) (cfg : ServerConfig) (sys : Sys) (n : ℕ)
    → (server_create ans cfg sys).0 ≡ none
    → (server_create ans cfg sys).1.undefined ≡ false
    → (server_create ans cfg sys).1.open_fds n ≡ true
    → sys.open_fds n ≡ true
unfolding server_create
failed_create_leaks_nothing ans cfg sys n e defined h = elim (Option-cases cfg.endpoints) [
  | inl x ↦ ground (arith, x)
  | inr (es, x) ↦ ground (arith, x, create_with-within ans cfg es sys n)
]

-- The server that a creation gives has the listeners that the loop opened.
created_with :
    (ans : ServerAnswers) (cfg : ServerConfig) (sys sys' : Sys) (s : Server)
    (es : List ServerEndpoint)
    → cfg.endpoints ≡ some es
    → server_create ans cfg sys ≡ (some s, sys')
    → ((init_listeners ans.net 0 es sys).ok ≡ true)
      × (s.listeners ≡ (init_listeners ans.net 0 es sys).listeners)
      × (sys' ≡ (init_listeners ans.net 0 es sys).sys)
unfolding server_create create_with
created_with ans cfg sys sys' s es x e = ground (arith, x, e)

-- A server that was created and is destroyed leaves no descriptor open that was not open before its
-- creation.
pub destroyed_server_leaks_nothing :
    (ans : ServerAnswers) (cfg : ServerConfig) (sys sys' : Sys) (s : Server)
    (es : List ServerEndpoint) (n : ℕ)
    → cfg.endpoints ≡ some es
    → server_create ans cfg sys ≡ (some s, sys')
    → (server_destroy s sys').open_fds n ≡ true
    → sys.open_fds n ≡ true
unfolding server_destroy
destroyed_server_leaks_nothing ans cfg sys sys' s es n x e h =
    let (_, same, after) = created_with ans cfg sys sys' s es x e in
    destroyed-within ans.net es sys n (ground (arith, h, same, after))

-- The descriptor is the one of an attempt at which all three calls succeeded.
abbrev pub Succeeds : ℕ → Attempt → Type 0
Succeeds fd a = (a.socket ≡ some fd) × (a.bound ≡ true) × (a.listening ≡ true)

abbrev pub SomeSucceeds : ℕ → List Attempt → Type 0
SomeSucceeds fd [] = ⊥
SomeSucceeds fd (a ∷ more) = Succeeds fd a ⊎ SomeSucceeds fd more

-- The descriptor listens at the endpoint: the socket file, or one of the addresses that were found.
abbrev pub ListensAt : Net → ServerEndpoint → ℕ → Type 0
ListensAt net e fd =
    ((e.type ≡ ep_unix) × Succeeds fd net.local)
    ⊎ ((e.type ≡ ep_tcp)
        × ((found : List Attempt) × (net.addresses ≡ some found) × SomeSucceeds fd found))

make_unix_listener-Succeeds :
    (a : Attempt) (path : String) (sys : Sys) (fd : ℕ)
    → (make_unix_listener a path sys).0 ≡ some fd
    → Succeeds fd a
unfolding make_unix_listener
make_unix_listener-Succeeds a path sys fd h = (ground arith, ground arith, ground arith)

try_addresses-Succeeds :
    (attempts : List Attempt) (sys : Sys) (fd : ℕ)
    → (try_addresses attempts sys).0 ≡ some fd
    → SomeSucceeds fd attempts
unfolding try_addresses
try_addresses-Succeeds [] sys fd h = cc
try_addresses-Succeeds (a ∷ more) sys fd h = elim (Option-cases a.socket) [
  | inl e ↦ inr (try_addresses-Succeeds more sys fd (ground (arith, e, h)))
  | inr (n, e) ↦ elim (Bool-cases (a.bound && a.listening)) [
    | inl y ↦ inl (ground (arith, e, y, h), ground (arith, y), ground (arith, y))
    | inr y ↦ inr (
        try_addresses-Succeeds more (set_fd n false (set_fd n true sys)) fd
          (ground (arith, e, y, h)))
  ]
]

open_listener-ListensAt :
    (net : Net) (e : ServerEndpoint) (sys : Sys) (fd : ℕ)
    → (open_listener net e sys).0 ≡ some fd
    → ListensAt net e fd
unfolding open_listener make_tcp_listener
open_listener-ListensAt net e sys fd h = at_type e.type refl
  where
    at_type : (type : EndpointType) → e.type ≡ type → ListensAt net e fd
    at_type ep_unix t = elim (Option-cases e.path) [
      | inl x ↦ absurd (ground (arith, x, t, h))
      | inr (path, x) ↦
          inl (t, make_unix_listener-Succeeds net.local path sys fd (ground (arith, x, t, h)))
    ]
    at_type ep_tcp t = elim (Option-cases net.addresses) [
      | inl x ↦ absurd (ground (arith, x, t, h))
      | inr (found, x) ↦
          inr (t, (found, x, try_addresses-Succeeds found sys fd (ground (arith, x, t, h))))
    ]

-- There is a listener for each endpoint, in their order, with its configuration and a descriptor that
-- listens there, by what the system answered for the endpoint of its number.
abbrev pub AllListening : (ℕ → Net) → ℕ → List ServerEndpoint → List Listener → Type 0
AllListening net i [] [] = Unit
AllListening net i (e ∷ es) (l ∷ ls) =
    (l.cfg ≡ e)
    × ((fd : ℕ) × (l.fd ≡ pos fd) × ListensAt (net i) e fd)
    × AllListening net (i + 1) es ls
AllListening net i _ _ = ⊥

init_listeners-found :
    (net : ℕ → Net) (i : ℕ) (e : ServerEndpoint) (es : List ServerEndpoint) (sys : Sys) (fd : ℕ)
    → (open_listener (net i) e sys).0 ≡ some fd
    → (init_listeners net i (e ∷ es) sys).listeners
      ≡ record { cfg = e; fd = pos fd }
        ∷ (init_listeners net (i + 1) es (open_listener (net i) e sys).1).listeners
unfolding init_listeners
init_listeners-found net i e es sys fd x = ground (arith, x)

init_listeners-AllListening :
    (net : ℕ → Net) (i : ℕ) (es : List ServerEndpoint) (sys : Sys)
    → (init_listeners net i es sys).ok ≡ true
    → AllListening net i es (init_listeners net i es sys).listeners
unfolding init_listeners
init_listeners-AllListening net i [] sys h = tt
init_listeners-AllListening net i (e ∷ es) sys h =
    elim (Option-cases (open_listener (net i) e sys).0) [
      | inl x ↦ absurd (ground (arith, x, h))
      | inr (fd, x) ↦ rw (init_listeners-found net i e es sys fd x) (
        refl,
        (fd, refl, open_listener-ListensAt (net i) e sys fd x),
        init_listeners-AllListening net (i + 1) es (open_listener (net i) e sys).1
            (ground (arith, x, h)),
      )
    ]

-- A server that was created listens on every endpoint of its configuration.
pub created_server_listens :
    (ans : ServerAnswers) (cfg : ServerConfig) (sys sys' : Sys) (s : Server)
    (es : List ServerEndpoint)
    → cfg.endpoints ≡ some es
    → server_create ans cfg sys ≡ (some s, sys')
    → AllListening ans.net 0 es s.listeners
created_server_listens ans cfg sys sys' s es x e =
    let (ok, same, _) = created_with ans cfg sys sys' s es x e in
    rw same (init_listeners-AllListening ans.net 0 es sys ok)

pub server_create-token :
    (ans : ServerAnswers) (cfg : ServerConfig) (sys sys' : Sys) (s : Server)
    (es : List ServerEndpoint)
    → cfg.endpoints ≡ some es
    → server_create ans cfg sys ≡ (some s, sys')
    → s.token ≡ (if ans.copied then cfg.token else none)
unfolding server_create create_with
server_create-token ans cfg sys sys' s es x e = ground (arith, x, e)
