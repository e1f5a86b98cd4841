-- ===== src/Hub/Lifecycle.antt =====
-- start() and stop() of the hub of src/sp_rtk_base_relay/core/broadcast_hub.py.
-- The two threads that start() launches are in Hub.Feed.
-- The input queue is not part of the state: stop() empties it, and before that it only holds chunks
-- on their way to a round.
pub mod Announced
mod Ended
mod Tests
use sp_rtk_base_relay.Prelude.{
  ℕ, String, Bool, true, false, Option, none, some, List, [], map, ◌++◌, if◌then◌else◌,
}
use sp_rtk_base_relay.Destination.{Destination, Remote}
use sp_rtk_base_relay.Destination
use sp_rtk_base_relay.Subscription.{FrameSubscription}
use sp_rtk_base_relay.Hub.{
  BroadcastHub, emit, input_connected, hub_started, hub_stopped, get_destination_names,
}
use sp_rtk_base_relay.Hub.Input.{
  InputSource, InputSide, Attempt, accepted, refused, raised, record_input_failure,
}
use sp_rtk_base_relay.Hub.Subscribers.{end_loop}

-- How start() ends.
pub data Started : Type 0 where
  was_running : Started
  connection_failed : Started
  started : Started

module _ {I : Type 0} (source : InputSource I) where
  -- `if not is_connected: connect()`: the attempt, if there is one.
  pub first_attempt : InputSide I → Attempt × InputSide I
  first_attempt s =
      let (attempt, input') = source.connect s.input in
      if source.is_connected s.input then (accepted, s) else (attempt, record s { input = input' })

module _ {R : Type 0} {I : Type 0} (source : InputSource I) where
  pub begin_run : ℕ → BroadcastHub R → BroadcastHub R
  begin_run now h =
      let connected = emit h (input_connected source.source_type) in
      let running = record connected {
        destinations = map (λ (d : Destination R). (Destination.start d).0) h.destinations;
        running = true;
        stats = record h.stats { started_at = some now };
        frame_buffer = [];
      } in
      emit running (hub_started (get_destination_names running))

  pub start_attempted :
      String → ℕ → Attempt → InputSide I → BroadcastHub R → BroadcastHub R × InputSide I × Started
  start_attempted otherwise now accepted s h =
      (begin_run now h, record s { input_last_error = none }, started)
  start_attempted otherwise now refused s h =
      (h, record_input_failure source otherwise none none s, connection_failed)
  start_attempted otherwise now (raised typed text) s h =
      (h, record_input_failure source otherwise typed (some text) s, connection_failed)

  pub start : String → ℕ → BroadcastHub R → InputSide I → BroadcastHub R × InputSide I × Started
  start otherwise now h s =
      let (attempt, s') = first_attempt source s in
      if h.running then (h, s, was_running) else start_attempted otherwise now attempt s' h

  module _ (ops : Remote R) (joined : Destination R → Destination R) where
    -- With the subscriptions that it ends.
    pub end_run :
        BroadcastHub R → InputSide I → BroadcastHub R × InputSide I × List FrameSubscription
    end_run h s =
        let halted = record h {
          running = false;
          destinations = map (Destination.stop ops joined) h.destinations;
        } in
        let (closed, ended) = end_loop h.frame_subscribers halted in
        let stopped = record closed {
          frame_buffer = [];
          stats = record closed.stats { started_at = none };
        } in
        (emit stopped hub_stopped, record s { input = source.disconnect s.input }, ended)

    pub stop : BroadcastHub R → InputSide I → BroadcastHub R × InputSide I × List FrameSubscription
    stop h s = if h.running then end_run h s else (h, s, [])
