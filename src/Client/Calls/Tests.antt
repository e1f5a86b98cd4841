-- ===== src/Client/Calls/Tests.antt =====
-- Examples of the calls of an RTCMClient.
use sp_rtk_base_relay.Prelude.{ℕ, ◌+◌, ◌≡◌, refl, false, List, [], ◌∷◌, length, arith}
use sp_rtk_base_relay.Client.{
  ClientConfig, new_client, Opening, opened, unreachable, no_socket, replied, broke_off, went,
  os_error, connect, disconnect, send_rtcm_data, on_heartbeat_timeout, is_connected,
}
use sp_rtk_base_relay.Client.Calls.{
  Call, connect_call, disconnect_call, send_call, timeout_call, Session, step, run, IsOrderly,
  IsSettled, IsLinked, IsConfig, IsSound,
}
use sp_rtk_base_relay.Client.Calls.Sound.{run-IsSound}
use sp_rtk_base_relay.Client.Calls.Backoff.{connect_all, IsFailing, connect_all-delay}

abbrev default_config : ClientConfig
default_config = record {
  heartbeat_timeout = 30;
  retry_initial_delay = 15;
  retry_max_delay = 60;
  retry_multiplier = (2, 1);
}

default_config-IsConfig : IsConfig default_config
default_config-IsConfig = record {
  ordered = ground arith;
  fraction = ground arith;
  growing = ground arith;
}

abbrev new_session : Session
new_session = record {
  client = new_client default_config;
  connects = 0;
  successes = 0;
  sent = [];
  sends = 0;
  timeouts = 0;
}

new_client-IsLinked : IsLinked (new_client default_config)
unfolding IsSettled new_client
new_client-IsLinked = record {
  settled = tt;
  has_socket = refl;
  monitored = refl;
  same_socket = refl;
  since = refl;
}

new_session-IsSound : IsSound default_config new_session
unfolding new_client
new_session-IsSound = record {
  linked = new_client-IsLinked;
  within = record { same_config = refl; at_least = ground arith; at_most = ground arith };
  counted = record {
    attempts = refl;
    successful = refl;
    failures = ground arith;
    bytes = refl;
    messages = refl;
    missed = refl;
  };
}

-- $HB$
abbrev welcome : Opening
welcome = opened (replied (36 ∷ 72 ∷ 66 ∷ 36 ∷ []))

abbrev some_calls : List Call
some_calls =
    connect_call 100 1 unreachable
    ∷ connect_call 115 2 welcome
    ∷ send_call (211 ∷ 0 ∷ []) went
    ∷ timeout_call
    ∷ connect_call 200 3 welcome
    ∷ send_call (211 ∷ 1 ∷ []) os_error
    ∷ connect_call 230 4 (opened broke_off)
    ∷ disconnect_call
    ∷ []

some_calls-IsOrderly : IsOrderly new_session some_calls
unfolding IsOrderly step connect disconnect send_rtcm_data on_heartbeat_timeout new_client
some_calls-IsOrderly = (refl, (refl, (tt, (tt, (refl, (tt, (refl, (tt, tt))))))))

run-IsSound_example : IsSound default_config (run new_session some_calls)
run-IsSound_example =
    run-IsSound default_config default_config-IsConfig new_session some_calls new_session-IsSound
      some_calls-IsOrderly

abbrev failing_attempts : List (ℕ × ℕ × Opening)
failing_attempts =
    (100, 1, unreachable) ∷ (115, 2, no_socket) ∷ (130, 3, opened (replied (36 ∷ []))) ∷ []

failing_attempts-IsFailing : IsFailing failing_attempts (new_client default_config)
unfolding IsFailing connect new_client
failing_attempts-IsFailing = (refl, (refl, (refl, tt)))

connect_all-delay_example :
    let c = connect_all failing_attempts (new_client default_config) in
    (c.current_retry_delay ≡ 15)
    × (is_connected c ≡ false)
    × (c.stats.connection_attempts ≡ 0 + length failing_attempts)
unfolding new_client
connect_all-delay_example =
    connect_all-delay failing_attempts (new_client default_config) new_client-IsLinked refl
      failing_attempts-IsFailing
