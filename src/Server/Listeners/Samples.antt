-- ===== src/Server/Listeners/Samples.antt =====
-- api/server.c: servers with one endpoint and with two.
use pyoneer.Prelude.{ℕ, zero, suc, ◌≡◌, refl, Bool, true, false, none, some, List, [], ◌∷◌}
use pyoneer.Prelude.Int.{pos}
use pyoneer.Pool.{thread_pool_init, start_workers}
use pyoneer.Pool.Threads.Samples.{fresh_pool}
use pyoneer.Server.{
  ServerEndpoint, ep_unix, ep_tcp, Sys, Net, ServerAnswers, ServerConfig, Server, server_create,
  create_with, init_listeners, open_listener, make_unix_listener, make_tcp_listener, create_pool,
  server_listeners_destroy, unlink_path, close_fd,
}

-- Standard input, output and error are open, and the socket file of another server is there.
abbrev pub std_fds : ℕ → Bool
std_fds zero = true
std_fds (suc zero) = true
std_fds (suc (suc zero)) = true
std_fds (suc (suc (suc n))) = false

abbrev pub sys : Sys
sys = record { open_fds = std_fds; files = λ p. true; undefined = false }

abbrev local_end : ServerEndpoint
local_end = record {
  type = ep_unix;
  host = none;
  port = none;
  path = some "/tmp/p";
  backlog = pos 0;
}

abbrev tcp_end : ServerEndpoint
tcp_end = record { type = ep_tcp; host = none; port = some "80"; path = none; backlog = pos 0 }

-- At the descriptor 3 the socket file can be bound or not; the first address is taken.
abbrev pub net : Bool → ℕ → Net
net bound i = record {
  local = record { socket = some 3; bound = bound; listening = true };
  addresses = some (
      record { socket = some 4; bound = false; listening = true }
      ∷ record { socket = some 4; bound = true; listening = true }
      ∷ []);
}

abbrev pub answers : Bool → ServerAnswers
answers bound = record {
  allocated = true;
  copied = true;
  listeners_allocated = true;
  pool_null = true;
  pool_allocated = true;
  created = λ k. true;
  net = net bound;
}

abbrev config : List ServerEndpoint → ServerConfig
config es = record { endpoints = some es; token = some "secret"; nworkers = 1; queue_capacity = 2 }

abbrev both : List ServerEndpoint
both = local_end ∷ tcp_end ∷ []

-- The server that is created.
abbrev server : Server
server = record {
  token = some "secret";
  listeners = record { cfg = local_end; fd = pos 3 } ∷ record { cfg = tcp_end; fd = pos 4 } ∷ [];
  pool = fresh_pool;
}

abbrev sys' : Sys
sys' = (init_listeners (net true) 0 both sys).sys

served_eq : server_create (answers true) (config both) sys ≡ (some server, sys')
unfolding server_create create_with init_listeners open_listener make_unix_listener
    make_tcp_listener create_pool thread_pool_init start_workers server_listeners_destroy
    unlink_path close_fd
served_eq = refl
