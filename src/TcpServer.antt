-- ===== src/TcpServer.antt =====
-- src/sp_rtk_base_relay/core/destinations/tcp_server_destination.py: the clients of a TCP server
-- destination. A client is the number of its writer; the set of clients is a list without repeats.
-- Whether a client's write ends in time is given to each broadcast, with what the other coroutines
-- do while it waits: clients that come and go. The sockets and the thread are not modelled.
pub mod Clients
pub mod Receipts
mod Tests
use sp_rtk_base_relay.Prelude.{
  ℕ, zero, suc, ◌+◌, ◌*◌, Bool, true, false, not, ◌||◌, List, [], ◌∷◌, length, leb, ltb, ◌==◌,
  if◌then◌else◌,
}
use sp_rtk_base_relay.Rtcm.{Bytes}

pub record TcpServer : Type 0 where
  pub max_clients : ℕ
  pub clients : List ℕ
  pub bytes_sent : ℕ
  pub messages_sent : ℕ
  pub last_send_time : ℕ

abbrev pub new_server : ℕ → TcpServer
new_server max_clients = record {
  max_clients = max_clients;
  clients = [];
  bytes_sent = 0;
  messages_sent = 0;
  last_send_time = 0;
}

unfoldable pub has_client : ℕ → List ℕ → Bool
has_client key [] = false
has_client key (k ∷ keys) = k == key || has_client key keys

-- set.discard
unfoldable pub discard : ℕ → List ℕ → List ℕ
discard key [] = []
discard key (k ∷ keys) = let rest = discard key keys in if k == key then rest else k ∷ rest

-- The client that connects, and whether it is accepted.
unfoldable pub join : ℕ → TcpServer → TcpServer × Bool
unfolding has_client
join key s =
    if leb s.max_clients (length s.clients)
    then (s, false)
    else if has_client key s.clients
    then (s, true)
    else (record s { clients = key ∷ s.clients }, true)

unfoldable pub leave : ℕ → TcpServer → TcpServer
unfolding discard
leave key s = record s { clients = discard key s.clients }

pub data Move : Type 0 where
  joins : ℕ → Move
  leaves : ℕ → Move

unfoldable pub move_all : List Move → TcpServer → TcpServer
unfolding join leave
move_all [] s = s
move_all (joins key ∷ moves) s = move_all moves (join key s).0
move_all (leaves key ∷ moves) s = move_all moves (leave key s)

-- The clients of the snapshot whose write fails or times out.
unfoldable pub failed_of : (ℕ → Bool) → List ℕ → List ℕ
failed_of ok [] = []
failed_of ok (k ∷ keys) = let failed = failed_of ok keys in if ok k then failed else k ∷ failed

unfoldable pub discard_all : List ℕ → List ℕ → List ℕ
unfolding discard
discard_all [] clients = clients
discard_all (key ∷ failed) clients = discard_all failed (discard key clients)

unfoldable pub count_sent : ℕ → Bytes → TcpServer → TcpServer
count_sent now bytes s =
    let successful : ℕ = length s.clients in
    if ltb 0 successful
    then record s {
      bytes_sent = s.bytes_sent + length bytes * successful;
      messages_sent = s.messages_sent + successful;
      last_send_time = now;
    }
    else s

unfoldable pub broadcast_to_clients : ℕ → (ℕ → Bool) → List Move → Bytes → TcpServer → TcpServer
unfolding failed_of discard_all move_all count_sent
broadcast_to_clients now ok moves bytes s =
    let moved = move_all moves s in
    count_sent now bytes
      (record moved { clients = discard_all (failed_of ok s.clients) moved.clients })

-- A round of _broadcast_loop() that got data: without clients it is discarded.
unfoldable pub broadcast_data : ℕ → (ℕ → Bool) → List Move → Bytes → TcpServer → TcpServer
unfolding broadcast_to_clients
broadcast_data now ok moves bytes s =
    if ltb 0 (length s.clients) then broadcast_to_clients now ok moves bytes s else s
