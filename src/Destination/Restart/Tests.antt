-- ===== src/Destination/Restart/Tests.antt =====
-- A restart of a destination of src/sp_rtk_base_relay/core/destinations/base_destination.py.
use sp_rtk_base_relay.Prelude.{◌≡◌, refl, Bool, true, false, none, []}
use sp_rtk_base_relay.Filter.{pass_all}
use sp_rtk_base_relay.Destination.{Remote, Destination, start, run_round, no_stats}
use sp_rtk_base_relay.Destination.Restart.{stopped_while_sending, restart-pill}

record Silent : Type 0 where
  sending : Bool

abbrev silent : Remote Silent
silent = record {
  connect = λ r. (none, r);
  disconnect = λ r. r;
  send_data = λ bytes r. (none, r);
  is_connected = λ r. true;
}

abbrev busy : Destination Silent
busy = record {
  name = "caster";
  destination_type = "ntrip";
  enabled = true;
  stats = no_stats;
  filter = record { mode = pass_all; message_ids = [] };
  queue = record { items = []; maxsize = 100 };
  running = true;
  remote = record { sending = true };
}

restart-pill_example :
    let (started, launched) = start (stopped_while_sending silent busy) in
    let (after, goes_on) = run_round silent 5 started in
    (launched ≡ true) × (goes_on ≡ false) × (after.running ≡ true) × ((start after).1 ≡ false)
restart-pill_example = restart-pill silent 5 busy refl refl
