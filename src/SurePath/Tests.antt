-- ===== src/SurePath/Tests.antt =====
-- A Sure-Path destination whose server does not answer at first, and whose connection breaks later.
use sp_rtk_base_relay.Prelude.{refl, none, List, [], ◌∷◌, arith}
use sp_rtk_base_relay.Filter.{pass_all}
use sp_rtk_base_relay.Client.{ClientConfig, new_client, unreachable, opened, replied, went}
use sp_rtk_base_relay.Client.Heartbeat.{heartbeat}
use sp_rtk_base_relay.Client.Calls.{IsConfig, IsSettled}
use sp_rtk_base_relay.Destination.{init}
use sp_rtk_base_relay.SurePath.History.{
  History, Event, free, offer, take, test, judge, set_time, test_again, send, heartbeat_lost,
  restart, run, IsInStep,
}
use sp_rtk_base_relay.SurePath.Runs.{run-IsInStep}

abbrev config : ClientConfig
config = record {
  heartbeat_timeout = 30;
  retry_initial_delay = 15;
  retry_max_delay = 60;
  retry_multiplier = (2, 1);
}

config-IsConfig : IsConfig config
config-IsConfig = record { ordered = omega arith; fraction = omega arith; growing = omega arith }

abbrev new_history : History
new_history = record {
  dest =
      init "rtk" "surepath" (record { mode = pass_all; message_ids = [] }) 100
        (record { client = new_client config; next_connect_time = 0 });
  phase = free;
  failed_at = none;
  early = 0;
  unseen = 0;
}

new_history-IsInStep : IsInStep config new_history
unfolding init new_client IsSettled
new_history-IsInStep = record {
  linked = record {
    settled = tt;
    has_socket = refl;
    monitored = refl;
    same_socket = refl;
    since = refl;
  };
  within = record { same_config = refl; at_least = omega arith; at_most = omega arith };
  messages = refl;
  bytes = refl;
  attempts = refl;
  successes = refl;
  failures = refl;
  waits = λ t e. absurd (cc e);
  punctual = refl;
}

abbrev some_events : List Event
some_events =
    restart
    ∷ offer (211 ∷ [])
    ∷ offer (212 ∷ [])
    ∷ offer (213 ∷ [])
    ∷ take
    ∷ test 100 101 1 unreachable
    ∷ judge 101
    ∷ set_time 101
    ∷ test_again
    ∷ take
    ∷ test 105 105 2 (opened (replied heartbeat))
    ∷ test_again
    ∷ take
    ∷ test 120 120 3 (opened (replied heartbeat))
    ∷ heartbeat_lost
    ∷ judge 121
    ∷ set_time 121
    ∷ test_again
    ∷ offer (214 ∷ [])
    ∷ offer (215 ∷ [])
    ∷ take
    ∷ test 140 140 4 (opened (replied heartbeat))
    ∷ judge 140
    ∷ set_time 140
    ∷ test_again
    ∷ heartbeat_lost
    ∷ send 141 went
    ∷ []

run-IsInStep_example : IsInStep config (run config new_history some_events)
run-IsInStep_example =
    run-IsInStep config config-IsConfig new_history some_events new_history-IsInStep
