-- ===== src/Pipeline/Relay/Runs/Tests.antt =====
-- Runs of the older pipeline: data that is sent, a lost connection, and a start that fails.
use sp_rtk_base_relay.Prelude.{◌≡◌, refl, true, false, List, [], ◌∷◌}
use sp_rtk_base_relay.Queue.{new}
use sp_rtk_base_relay.Client.{
  ClientConfig, new_client, Opening, opened, replied, went, os_error, connect, send_rtcm_data,
}
use sp_rtk_base_relay.Client.Heartbeat.{heartbeat}
use sp_rtk_base_relay.Pipeline.{connects, refuses, reads, failed, start_relay}
use sp_rtk_base_relay.Pipeline.Relay.{
  Relay, Event, over, start, read, put, test, get, send, stop, other_halts, coordinator_halts,
  finish, run, IsRelayed,
}
use sp_rtk_base_relay.Pipeline.Relay.Runs.{new_relay, new_relay-IsRelayed, run-IsRelayed}

abbrev config : ClientConfig
config = record {
  heartbeat_timeout = 30;
  retry_initial_delay = 15;
  retry_max_delay = 60;
  retry_multiplier = (2, 1);
}

abbrev fresh_relay : Relay
fresh_relay = new_relay (new_client config) true

abbrev standing : Opening
standing = opened (replied heartbeat)

-- Two chunks are read, the first is sent, and the connection breaks at the second.
abbrev broken_events : List Event
broken_events =
    start connects 100 1 standing
    ∷ read (reads (1 ∷ 2 ∷ []))
    ∷ put
    ∷ test
    ∷ get
    ∷ read (reads (3 ∷ []))
    ∷ send 101 went false
    ∷ put
    ∷ test
    ∷ get
    ∷ send 102 os_error false
    ∷ coordinator_halts
    ∷ coordinator_halts
    ∷ read (reads (4 ∷ []))
    ∷ coordinator_halts
    ∷ coordinator_halts
    ∷ coordinator_halts
    ∷ []

-- Two threads stop the pipeline at once, and one of them goes on after the run has ended.
abbrev stopped_twice : List Event
stopped_twice =
    start connects 100 1 standing
    ∷ test
    ∷ stop
    ∷ stop
    ∷ other_halts 0
    ∷ other_halts 1
    ∷ other_halts 0
    ∷ other_halts 0
    ∷ other_halts 0
    ∷ other_halts 0
    ∷ get
    ∷ read (reads (1 ∷ []))
    ∷ finish
    ∷ start connects 200 2 standing
    ∷ test
    ∷ other_halts 0
    ∷ other_halts 0
    ∷ other_halts 0
    ∷ other_halts 0
    ∷ get
    ∷ []

-- One successful start is stopped, and two stops are counted; and the second run is ended by a stop
-- of the first.
late_stop_counts :
    ((run fresh_relay stopped_twice).pipeline.stats.pipeline_stops ≡ 2)
    × ((run fresh_relay stopped_twice).pipeline.stats.successful_starts ≡ 2)
    × ((run fresh_relay stopped_twice).coordinator ≡ over)
    × ((run fresh_relay stopped_twice).pipeline.running ≡ false)
unfolding run new_client new connect send_rtcm_data
late_stop_counts = (refl, refl, refl, refl)

broken_run : (run fresh_relay broken_events).sent ≡ (1 ∷ 2 ∷ []) ∷ []
unfolding run new_client new connect send_rtcm_data
broken_run = refl

broken_counts :
    ((run fresh_relay broken_events).pipeline.stats.messages_processed ≡ 1)
    × ((run fresh_relay broken_events).pipeline.stats.rtcm_errors ≡ 1)
    × ((run fresh_relay broken_events).pipeline.stats.restart_attempts ≡ 1)
    × ((run fresh_relay broken_events).pipeline.running ≡ false)
unfolding run new_client new connect send_rtcm_data
broken_counts = (refl, refl, refl, refl)

-- A start that fails calls the restart callback when an earlier run was restarted, and only then.
failed_starts :
    ((start_relay refuses 200 2 standing (run fresh_relay (broken_events)).pipeline).1
      ≡ failed true)
    × ((start_relay refuses 200 2 standing fresh_relay.pipeline).1 ≡ failed false)
unfolding run start_relay new_client new connect send_rtcm_data
failed_starts = (refl, refl)

run-IsRelayed_example : IsRelayed (run fresh_relay broken_events)
run-IsRelayed_example =
    run-IsRelayed fresh_relay broken_events (new_relay-IsRelayed (new_client config) true)
