-- ===== src/Hub/Lifecycle/Tests.antt =====
-- A hub of src/sp_rtk_base_relay/core/broadcast_hub.py that is stopped.
use sp_rtk_base_relay.Prelude.{ℕ, refl, true, false, none, some, [], ◌∷◌}
use sp_rtk_base_relay.Destination.{Remote, Destination, run_loop, no_stats}
use sp_rtk_base_relay.Filter.{pass_all}
use sp_rtk_base_relay.Subscription.{open_subscription}
use sp_rtk_base_relay.Hub.{BroadcastHub}
use sp_rtk_base_relay.Hub.Input.{InputSource, InputSide, accepted, default_reconnect_policy}
use sp_rtk_base_relay.Hub.Lifecycle.{stop}
use sp_rtk_base_relay.Hub.Lifecycle.Ended.{IsEnded, stop-IsEnded}

abbrev source : InputSource ℕ
source = record {
  source_type = "serial";
  connect = λ n. (accepted, 1);
  disconnect = λ n. 0;
  is_connected = λ n. true;
  last_error = λ n. none;
  last_failure_persistent = λ n. false;
  reconnect_policy = default_reconnect_policy;
}

abbrev side : InputSide ℕ
side = record {
  input = 1;
  reconnect_attempts = 0;
  reconnect_successes = 0;
  connection_failures = [];
  input_last_error = none;
}

abbrev remote : Remote ℕ
remote = record {
  connect = λ n. (none, n);
  disconnect = λ n. n;
  send_data = λ bytes n. (none, n);
  is_connected = λ n. true;
}

abbrev destination : Destination ℕ
destination = record {
  name = "caster";
  destination_type = "ntrip";
  enabled = true;
  stats = no_stats;
  filter = record { mode = pass_all; message_ids = [] };
  queue = record { items = []; maxsize = 2 };
  running = true;
  remote = 0;
}

abbrev hub : BroadcastHub ℕ
hub = record {
  destinations = destination ∷ [];
  running = true;
  stats = record {
    bytes_received = 0;
    chunks_received = 0;
    frames_parsed = 0;
    chunks_distributed = 0;
    last_data_time = 0;
    started_at = some 1;
    no_data_warnings = 0;
  };
  frame_buffer = 0xD3 ∷ [];
  frame_subscribers = open_subscription 3 none 4 ∷ open_subscription 3 none 5 ∷ [];
  removed_subscriber_drops = 2;
  any_needs_parsing = true;
  emitted = [];
}

stop-IsEnded_example :
    IsEnded source remote
      (run_loop remote (6 ∷ []))
      hub
      side
      (stop source remote (run_loop remote (6 ∷ [])) hub side)
unfolding open_subscription
stop-IsEnded_example =
    stop-IsEnded source remote (run_loop remote (6 ∷ [])) hub side refl (refl, (refl, tt))
