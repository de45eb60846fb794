-- ===== src/Client/Connection/Samples.antt =====
-- api/client.c: a client that is gone when the reply to its broken request is sent.
use pyoneer.Prelude.{false, some}
use pyoneer.Client.{message}
use pyoneer.Client.Peer.{af_inet}
use pyoneer.Client.Connection.{Socket}

abbrev socket : Socket
socket = record {
  sockname = some (af_inet "127.0.0.1" 80);
  peername = some (af_inet "127.0.0.1" 51233);
  received = message "..";
  send_ok = false;
  error = "Broken pipe";
}
