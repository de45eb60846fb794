-- ===== src/Server.antt =====
-- api/server.c: the creation of the server with its listeners, and its destruction. The system is seen
-- through the descriptors that are open and the socket files that exist.
pub mod Listeners
pub mod Failures
pub mod Accept
use pyoneer.Prelude.{
  ℕ, zero, suc, ◌+◌, String, Bool, true, false, not, ◌&&◌, ◌||◌, Option, none, some, List, [], ◌∷◌,
  ◌==◌, str_eq, length, if◌then◌else◌,
}
use pyoneer.Prelude.Int.{ℤ, pos, negsuc}
use pyoneer.Prelude.Texts.{◌^^◌, truncate}
use pyoneer.Pool.{ThreadPool, thread_pool_init, start_workers}

-- `endpoint_t`; a type that is not `EP_UNIX` is taken as TCP.
pub data EndpointType : Type 0 where
  ep_unix ep_tcp : EndpointType

-- `server_endpoint`
pub record ServerEndpoint : Type 0 where
  pub type : EndpointType
  pub host : Option String
  pub port : Option String
  pub path : Option String
  pub backlog : ℤ

abbrev or_text : Option String → String → String
or_text none default = default
or_text (some text) default = text

-- `listener_format_label`; a UNIX endpoint without a path is printed as NULL, undefined behaviour.
unfoldable pub listener_format_label : ServerEndpoint → Option String
listener_format_label e = elim e.type [
  | ep_tcp ↦ some (truncate 127 ("tcp:" ^^ or_text e.host "*" ^^ ":" ^^ or_text e.port "?"))
  | ep_unix ↦ elim e.path [ none ↦ none | some path ↦ some (truncate 127 ("unix:" ^^ path)) ]
]

-- `listener`, less its label, which is only logged.
pub record Listener : Type 0 where
  pub cfg : ServerEndpoint
  pub fd : ℤ

-- `undefined` says that a call had undefined behaviour: what the model does from there on means nothing.
pub record Sys : Type 0 where
  pub open_fds : ℕ → Bool
  pub files : String → Bool
  pub undefined : Bool

abbrev pub set_fd : ℕ → Bool → Sys → Sys
set_fd fd b sys = record sys { open_fds = λ n. if n == fd then b else sys.open_fds n }

abbrev pub set_file : String → Bool → Sys → Sys
set_file path b sys = record sys { files = λ p. if str_eq p path then b else sys.files p }

-- What the calls for one address answer: `socket`, `bind` and `listen`.
pub record Attempt : Type 0 where
  pub socket : Option ℕ
  pub bound : Bool
  pub listening : Bool

-- What they answer for an endpoint, and the addresses that `getaddrinfo` finds for it.
pub record Net : Type 0 where
  pub local : Attempt
  pub addresses : Option (List Attempt)

-- The file that `bind` makes: `sun_path` has room for 108 bytes, and a longer path is cut.
unfoldable pub bound_path : String → String
bound_path path = truncate 107 path

-- `none` is the descriptor -1.
unfoldable pub make_unix_listener : Attempt → String → Sys → Option ℕ × Sys
unfolding bound_path
make_unix_listener a path sys = elim a.socket [
  | none ↦ (none, sys)
  | some fd ↦
      if a.bound
      then (if a.listening
          then (some fd, set_file (bound_path path) true (set_fd fd true sys))
          else (none, set_fd fd false (set_file (bound_path path) true (set_fd fd true sys))))
      else (none, set_fd fd false (set_fd fd true sys))
]

-- The loop over the addresses.
unfoldable pub try_addresses : List Attempt → Sys → Option ℕ × Sys
try_addresses [] sys = (none, sys)
try_addresses (a ∷ more) sys = elim a.socket [
  | none ↦ try_addresses more sys
  | some fd ↦
      let rest = try_addresses more (set_fd fd false (set_fd fd true sys)) in
      if a.bound && a.listening then (some fd, set_fd fd true sys) else rest
]

unfoldable pub make_tcp_listener : Net → Sys → Option ℕ × Sys
unfolding try_addresses
make_tcp_listener net sys = elim net.addresses [
  | none ↦ (none, sys)
  | some found ↦ try_addresses found sys
]

-- An endpoint without the path or the port that it needs gets no descriptor.
unfoldable pub open_listener : Net → ServerEndpoint → Sys → Option ℕ × Sys
unfolding make_unix_listener make_tcp_listener
open_listener net e sys = elim e.type [
  | ep_unix ↦ elim e.path [ none ↦ (none, sys) | some path ↦ make_unix_listener net.local path sys ]
  | ep_tcp ↦ elim e.port [ none ↦ (none, sys) | some port ↦ make_tcp_listener net sys ]
]

-- What `calloc` leaves of a listener that the loop does not reach.
abbrev pub blank : Listener
blank = record {
  cfg = record { type = ep_unix; host = none; port = none; path = none; backlog = pos 0 };
  fd = pos 0;
}

abbrev pub blanks : List ServerEndpoint → List Listener
blanks [] = []
blanks (e ∷ es) = blank ∷ blanks es

pub record Opened : Type 0 where
  pub ok : Bool
  pub listeners : List Listener
  pub sys : Sys

-- The loop of `server_listeners_init` from the endpoint `i` on: it ends at the first failure.
unfoldable pub init_listeners : (ℕ → Net) → ℕ → List ServerEndpoint → Sys → Opened
init_listeners net i [] sys = record { ok = true; listeners = []; sys = sys }
init_listeners net i (e ∷ es) sys =
    let (found, sys') = open_listener (net i) e sys in
    let rest = init_listeners net (i + 1) es sys' in
    elim found [
      | none ↦ record {
        ok = false;
        listeners = record { cfg = e; fd = negsuc 0 } ∷ blanks es;
        sys = sys';
      }
      | some fd ↦ record rest { listeners = record { cfg = e; fd = pos fd } ∷ rest.listeners }
    ]

-- The body of the loop of `server_listeners_destroy`.
unfoldable pub close_fd : ℤ → Sys → Sys
close_fd (pos fd) sys = set_fd fd false sys
close_fd (negsuc n) sys = sys

unfoldable pub unlink_path : ServerEndpoint → Sys → Sys
unlink_path e sys = elim e.type [
  | ep_tcp ↦ sys
  | ep_unix ↦ elim e.path [ none ↦ sys | some path ↦ set_file path false sys ]
]

unfoldable pub server_listeners_destroy : List Listener → Sys → Sys
unfolding close_fd unlink_path
server_listeners_destroy [] sys = sys
server_listeners_destroy (l ∷ ls) sys =
    server_listeners_destroy ls (unlink_path l.cfg (close_fd l.fd sys))

-- `server_config`
pub record ServerConfig : Type 0 where
  pub endpoints : Option (List ServerEndpoint)
  pub token : Option String
  pub nworkers : ℕ
  pub queue_capacity : ℕ

-- `struct Server`, less the pointers that it is given.
pub record Server : Type 0 where
  pub token : Option String
  pub listeners : List Listener
  pub pool : ThreadPool

-- What the system answers while the server is created: `malloc`, `strdup`, `calloc` of the listeners,
-- the allocations of the pool, and the creation of its threads; and whether the block that `malloc` gave
-- happens to hold NULL where `pool` stands in it.
pub record ServerAnswers : Type 0 where
  pub allocated : Bool
  pub copied : Bool
  pub listeners_allocated : Bool
  pub pool_null : Bool
  pub pool_allocated : Bool
  pub created : ℕ → Bool
  pub net : ℕ → Net

-- 0 stands for the default.
abbrev pub or_default : ℕ → ℕ → ℕ
or_default zero default = default
or_default (suc n) default = suc n

-- `thread_pool_create`
unfoldable pub create_pool : ServerAnswers → ServerConfig → Option ThreadPool
create_pool ans cfg =
    elim (thread_pool_init (or_default cfg.nworkers 8) (or_default cfg.queue_capacity 128) true
      ans.pool_allocated) [
        | none ↦ none
        | some pool ↦ start_workers pool.nthreads 0 ans.created pool
      ]

-- From the allocation of the server on. Where the listeners fail, `server_destroy` reads `pool` before
-- it is set: unless it happens to be NULL, it destroys a pool that is not there.
unfoldable pub create_with :
    ServerAnswers → ServerConfig → List ServerEndpoint → Sys → Option Server × Sys
unfolding init_listeners server_listeners_destroy create_pool
create_with ans cfg es sys =
    if not ans.allocated || not ans.listeners_allocated
    then (none, sys)
    else (let opened = init_listeners ans.net 0 es sys in
        let closed = server_listeners_destroy opened.listeners opened.sys in
        if opened.ok
        then elim (create_pool ans cfg) [
          | none ↦ (none, closed)
          | some pool ↦ (
            some (record {
              token = if ans.copied then cfg.token else none;
              listeners = opened.listeners;
              pool = pool;
            }),
            opened.sys,
          )
        ]
        else (none, if ans.pool_null then closed else record opened.sys { undefined = true }))

-- The pyoneer, the logger and the configuration are there.
unfoldable pub server_create : ServerAnswers → ServerConfig → Sys → Option Server × Sys
unfolding create_with
server_create ans cfg sys = elim cfg.endpoints [
  | none ↦ (none, sys)
  | some es ↦ if length es == 0 then (none, sys) else create_with ans cfg es sys
]

-- The destruction of the pool is in `Pool`.
unfoldable pub server_destroy : Server → Sys → Sys
unfolding server_listeners_destroy
server_destroy s sys = server_listeners_destroy s.listeners sys
