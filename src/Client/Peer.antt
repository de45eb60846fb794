-- ===== src/Client/Peer.antt =====
-- api/client.c: the number and the peer of a connection.
use pyoneer.Prelude.{
  ℕ, ◌+◌, ◌-◌, ◌^◌, ◌≤◌, ◌<◌, ◌≡◌, String, Bool, true, false, Option, none, some, ◌==◌,
  if◌then◌else◌, arith,
}
use pyoneer.Prelude.Texts.{◌^^◌, size, truncate, print_nat, truncate-fits, size-cat, size-print_nat}

-- The counter is an `int`; a step past its largest value is undefined behaviour.
unfoldable pub next_conn_id : ℕ → Option (ℕ × ℕ)
next_conn_id id = if id == 2 ^ 31 - 1 then none else some (id, id + 1)

-- `struct sockaddr_storage`, as far as it is read: the address as `inet_ntop` prints it, and the port.
pub data Address : Type 0 where
  af_unix af_other : Address
  af_inet af_inet6 : String → ℕ → Address

-- The first test of `client_handle_fd`; NULL stands for a call that fails.
unfoldable pub is_unix : Option Address → Bool
is_unix (some af_unix) = true
is_unix _ = false

-- The address that `getpeername` gives.
unfoldable pub peer_text : Option Address → String
peer_text none = "unknown"
peer_text (some (af_inet ip port)) = truncate 63 (ip ^^ ":" ^^ print_nat port)
peer_text (some (af_inet6 ip port)) = truncate 63 ("[" ^^ ip ^^ "]:" ^^ print_nat port)
peer_text (some af_unix) = "unknown"
peer_text (some af_other) = "unknown"

unfoldable pub format_peer : Bool → Option Address → String
unfolding peer_text
format_peer true peer = "unix"
format_peer false peer = peer_text peer

-- What the C library writes: an address fits `INET6_ADDRSTRLEN`, and a port 16 bits.
abbrev pub IsAddress : Address → Type 0
IsAddress (af_inet ip port) = (size ip ≤ 15) × (port < 65536)
IsAddress (af_inet6 ip port) = (size ip ≤ 45) × (port < 65536)
IsAddress a = Unit

-- No address of a peer is cut.
pub peer_text-inet :
    (ip : String) (port : ℕ)
    → IsAddress (af_inet ip port)
    → peer_text (some (af_inet ip port)) ≡ ip ^^ ":" ^^ print_nat port
unfolding peer_text
peer_text-inet ip port (short, low) =
    truncate-fits 63 (ip ^^ ":" ^^ print_nat port)
      (omega (arith, size-cat ip (":" ^^ print_nat port), size-print_nat 4 port (omega arith)))

pub peer_text-inet6 :
    (ip : String) (port : ℕ)
    → IsAddress (af_inet6 ip port)
    → peer_text (some (af_inet6 ip port)) ≡ "[" ^^ ip ^^ "]:" ^^ print_nat port
unfolding peer_text
peer_text-inet6 ip port (short, low) =
    truncate-fits 63 ("[" ^^ ip ^^ "]:" ^^ print_nat port)
      (omega (arith, size-cat ip ("]:" ^^ print_nat port), size-print_nat 4 port (omega arith)))
