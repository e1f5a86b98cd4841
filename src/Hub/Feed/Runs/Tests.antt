-- ===== src/Hub/Feed/Runs/Tests.antt =====
-- The threads of a hub of src/sp_rtk_base_relay/core/broadcast_hub.py: an input that is lost, and two
-- chunks.
use sp_rtk_base_relay.Prelude.{
  ℕ, zero, suc, ◌≡◌, refl, true, false, none, some, List, [], ◌∷◌, ◌++◌, map,
}
use sp_rtk_base_relay.Filter.{pass_all}
use sp_rtk_base_relay.Queue.{present}
use sp_rtk_base_relay.Queue.Laws.{IsBounded}
use sp_rtk_base_relay.Destination.{init}
use sp_rtk_base_relay.Hub.Broadcast.Paths.{chunk_bytes}
use sp_rtk_base_relay.Hub.Broadcast.Receives.{receives}
use sp_rtk_base_relay.Hub.Input.{InputSource, accepted, default_reconnect_policy}
use sp_rtk_base_relay.Hub.Feed.{Feed, Reading, data_read, read_error, input_queue_size}
use sp_rtk_base_relay.Hub.Feed.Runs.{Turn, input_turn, broadcast_turn, begin, run, run-receives}

-- The state is the number of reads that are left before the input is lost.
abbrev source : InputSource ℕ
source = record {
  source_type = "tcp";
  connect = λ n. (accepted, 2);
  disconnect = λ n. 0;
  is_connected = λ n. elim n [ zero ↦ false | suc m ↦ true ];
  last_error = λ n. none;
  last_failure_persistent = λ n. false;
  reconnect_policy = default_reconnect_policy;
}

abbrev read_data : ℕ → Reading × ℕ
read_data zero = (read_error none "closed", 0)
read_data (suc n) = (data_read (0xD3 ∷ n ∷ []), n)

abbrev feed : Feed ℕ ℕ
feed = record {
  hub = record {
    destinations = init "first" "ntrip" (record { mode = pass_all; message_ids = [] }) 2 0 ∷ [];
    running = true;
    stats = record {
      bytes_received = 0;
      chunks_received = 0;
      frames_parsed = 0;
      chunks_distributed = 0;
      last_data_time = 0;
      started_at = some 1;
      no_data_warnings = 0;
    };
    frame_buffer = [];
    frame_subscribers = [];
    removed_subscriber_drops = 0;
    any_needs_parsing = true;
    emitted = [];
  };
  side = record {
    input = 1;
    reconnect_attempts = 0;
    reconnect_successes = 0;
    connection_failures = [];
    input_last_error = none;
  };
  input_queue = record { items = []; maxsize = input_queue_size };
}

abbrev turns : List Turn
turns =
    input_turn "lost" []
    ∷ input_turn "lost" (false ∷ [])
    ∷ broadcast_turn 5
    ∷ input_turn "lost" []
    ∷ broadcast_turn 6
    ∷ []

run-receives_example :
    let r = run source read_data (begin feed) turns in
    (r.feed.hub.destinations
      ≡ map (receives feed.hub.frame_buffer (map chunk_bytes r.handed)) feed.hub.destinations)
    × (r.accepted ≡ map chunk_bytes r.handed ++ present r.feed.input_queue.items)
    × IsBounded r.feed.input_queue
run-receives_example = run-receives source read_data feed turns (λ off. cc off) refl
