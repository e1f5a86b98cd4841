-- ===== src/TcpServer/Tests.antt =====
-- A TCP server that allows two clients: a third is refused, and one of them fails at the second frame.
use sp_rtk_base_relay.Prelude.{ℕ, ◌≡◌, ◌+◌, refl, true, not, List, [], ◌∷◌, length, arith, ◌==◌}
use sp_rtk_base_relay.TcpServer.{new_server, joins, leaves, join, broadcast_to_clients}
use sp_rtk_base_relay.TcpServer.Clients.{IsDistinct}
use sp_rtk_base_relay.TcpServer.Receipts.{
  Event, moves, sends, run, receipts, total_length, IsServing, run-IsServing,
}

abbrev busy_events : List Event
busy_events =
    moves (joins 7)
    ∷ moves (joins 8)
    ∷ moves (joins 9)
    ∷ sends 100 (λ client. true) (211 ∷ 0 ∷ [])
    ∷ sends 101 (λ client. not (client == 8)) (211 ∷ 0 ∷ 4 ∷ [])
    ∷ moves (leaves 7)
    ∷ sends 102 (λ client. true) (211 ∷ [])
    ∷ []

busy_run : run busy_events (new_server 2) ≡ record {
  max_clients = 2;
  clients = [];
  bytes_sent = 7;
  messages_sent = 3;
  last_send_time = 101;
}
unfolding run
busy_run = refl

-- A client that connects while a frame is sent is counted as if it had received the frame.
late_client_counted :
    (broadcast_to_clients 100
      (λ client. true)
      (joins 8 ∷ [])
      (211 ∷ [])
      (join 7 (new_server 2)).0).messages_sent
    ≡ 2
unfolding broadcast_to_clients join
late_client_counted = refl

new_server-IsServing : (max_clients : ℕ) → IsServing (new_server max_clients)
unfolding IsServing IsDistinct
new_server-IsServing max_clients = (tt, omega arith)

run-IsServing_example :
    IsServing (run busy_events (new_server 2))
    × ((run busy_events (new_server 2)).messages_sent
        ≡ (new_server 2).messages_sent + length (receipts busy_events (new_server 2)))
    × ((run busy_events (new_server 2)).bytes_sent
        ≡ (new_server 2).bytes_sent + total_length (receipts busy_events (new_server 2)))
run-IsServing_example = run-IsServing busy_events (new_server 2) (new_server-IsServing 2)
