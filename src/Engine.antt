-- ===== src/Engine.antt =====
-- src/sp_rtk_base_relay/engine.py: the engine that embedding programs call, over the factories and
-- the hub.
-- Each method is one step; what the hub's threads do comes between the steps. The hub has its input
-- source and what it counts about it in an InputSide, and the engine says only whether it has a source.
-- The bus is the list of the events that are put on it: the hub's, which are moved to it after each
-- call, and the engine's own. Not modelled: get_status and update_metrics, which show the state, and
-- subscribe_events and get_recent_events, which are the bus's (Events).
pub mod Running
mod Requests
mod Starts
pub mod Runs
pub mod Naming
mod Tests
use sp_rtk_base_relay.Prelude.{
  ℕ, String, Bool, true, false, Option, none, some, List, [], ◌∷◌, ◌++◌, map, length, if◌then◌else◌,
}
use sp_rtk_base_relay.Prelude.Int.{ℤ}
use sp_rtk_base_relay.Config.Destinations.{DestinationConfig}
use sp_rtk_base_relay.Destination.{Destination, Remote}
use sp_rtk_base_relay.Subscription.{FrameSubscription, open_subscription, default_frame_queue_size}
use sp_rtk_base_relay.Factory
use sp_rtk_base_relay.Factory.{Builders, Outcome, FactoryError, done, raises, create, also_created}
use sp_rtk_base_relay.InputFactory.{
  InputFactory, InputError, Made, made, failed, create_input_source,
}
use sp_rtk_base_relay.Hub
use sp_rtk_base_relay.Hub.{BroadcastHub, HubEvent, new_hub}
use sp_rtk_base_relay.Hub.Subscribers.{add_frame_subscriber}
use sp_rtk_base_relay.Hub.Input.{InputSource, InputSide}
use sp_rtk_base_relay.Hub.Lifecycle.{Started, was_running, connection_failed, started}
use sp_rtk_base_relay.Hub.Lifecycle

pub data EngineEvent : Type 0 where
  hub_event : HubEvent → EngineEvent
  engine_started : ℕ → String → EngineEvent
  engine_stopped : EngineEvent

-- The exceptions: the engine's own, the factories', and the input source's that does not connect.
pub data EngineError : Type 0 where
  service_error : String → EngineError
  configuration_error : String → EngineError
  key_error : String → EngineError
  assertion_error : EngineError
  connection_error : EngineError
  from_factory : FactoryError → EngineError
  from_input_factory : InputError → EngineError

-- `source` and `config` are the input's configuration.
pub record RelayEngine (C : Type 0) (R : Type 0) (I : Type 0) : Type 0 where
  pub source : String
  pub config : C
  pub has_input_source : Bool
  pub hub : Option (BroadcastHub R × InputSide I)
  pub running : Bool
  pub emitted : List EngineEvent

pub new_engine : {C : Type 0} {R : Type 0} {I : Type 0} → String → C → RelayEngine C R I
new_engine source config = record {
  source = source;
  config = config;
  has_input_source = false;
  hub = none;
  running = false;
  emitted = [];
}

-- The hub's part of `__init__` about its input.
pub new_side : {I : Type 0} → I → InputSide I
new_side input = record {
  input = input;
  reconnect_attempts = 0;
  reconnect_successes = 0;
  connection_failures = [];
  input_last_error = none;
}

-- A call's error, if any.
abbrev pub Raised : Type 0
Raised = Option EngineError

abbrev pub or_not_found : Bool → Raised
or_not_found true = none
or_not_found false = some (key_error "not found")

abbrev pub or_stopping : Bool → Raised
or_stopping true = none
or_stopping false = some (service_error "engine is stopping")

-- `for dc in destinations or []: dest_objects.append(DestinationFactory.create(dc))`
pub create_each :
    {R : Type 0} → Builders R → List DestinationConfig → Outcome (List (Destination R))
create_each builders [] = done []
create_each builders (c ∷ configs) = also_created (create builders c) (create_each builders configs)

module _ {C : Type 0} {R : Type 0} {I : Type 0} where
  -- The hub after a call, its events on the bus.
  pub put_hub : BroadcastHub R → InputSide I → RelayEngine C R I → RelayEngine C R I
  put_hub h s e = record e {
    hub = some (record h { emitted = [] }, s);
    emitted = e.emitted ++ map hub_event h.emitted;
  }

  pub emit : EngineEvent → RelayEngine C R I → RelayEngine C R I
  emit event e = record e { emitted = e.emitted ++ event ∷ [] }

  -- What start() does when the hub's start() has returned or raised.
  pub after_start : ℕ → Started → RelayEngine C R I → RelayEngine C R I × Raised
  after_start destination_count connection_failed e = (e, some connection_error)
  after_start destination_count was_running e =
      (emit (engine_started destination_count e.source) (record e { running = true }), none)
  after_start destination_count started e =
      (emit (engine_started destination_count e.source) (record e { running = true }), none)

  module _ (source : InputSource I) (otherwise : String) (now : ℕ) where
    pub start_hub :
        I → Outcome (List (Destination R)) → RelayEngine C R I → RelayEngine C R I × Raised
    start_hub input (raises error) e = (e, some (from_factory error))
    start_hub input (done dest_objects) e =
        let (h, s, how) =
          Lifecycle.start source otherwise now (new_hub dest_objects) (new_side input) in
        after_start (length dest_objects) how (put_hub h s e)

    pub create_and_start :
        Made I → Outcome (List (Destination R)) → RelayEngine C R I → RelayEngine C R I × Raised
    create_and_start (failed error) dest_objects e = (e, some (from_input_factory error))
    create_and_start (made input) dest_objects e =
        start_hub input dest_objects (record e { has_input_source = true })

    pub start :
        {S : Type 0}
        → InputFactory C S I
        → Builders R
        → List DestinationConfig
        → RelayEngine C R I
        → RelayEngine C R I × Raised
    start inputs builders destinations e =
        if e.running
        then (e, some (service_error "Engine is already running"))
        else create_and_start (create_input_source inputs e.source e.config)
            (create_each builders destinations) e

  pub get_destination_names : RelayEngine C R I → List String
  get_destination_names e = elim e.hub [ none ↦ [] | some (h, s) ↦ Hub.get_destination_names h ]

  -- A method for a running engine, on its hub.
  pub with_hub :
      (BroadcastHub R × InputSide I → RelayEngine C R I × Raised)
      → RelayEngine C R I
      → RelayEngine C R I × Raised
  with_hub body e =
      let on_hub = elim e.hub as (λ o. RelayEngine C R I × Raised) [
        | none ↦ (e, some assertion_error)
        | some hub ↦ body hub
      ] in
      if e.running then on_hub else (e, some (service_error "engine is not running"))

  abbrev pub put_added :
      InputSide I → Option (BroadcastHub R) → RelayEngine C R I → RelayEngine C R I × Raised
  put_added s none e = (e, some (configuration_error "already exists"))
  put_added s (some h) e = (put_hub h s e, none)

  abbrev pub add_created :
      BroadcastHub R
      → InputSide I
      → Outcome (Destination R)
      → RelayEngine C R I
      → RelayEngine C R I × Raised
  add_created h s (raises error) e = (e, some (from_factory error))
  add_created h s (done dest) e = put_added s (Hub.add_destination h dest) e

  pub add_destination :
      Builders R → DestinationConfig → RelayEngine C R I → RelayEngine C R I × Raised
  add_destination builders config e =
      with_hub (λ hub. add_created hub.0 hub.1 (create builders config) e) e

  pub start_destination : String → RelayEngine C R I → RelayEngine C R I × Raised
  start_destination name e =
      with_hub
        (λ hub.
          let (h, found) = Hub.start_destination hub.0 name in
          (put_hub h hub.1 e, or_not_found found))
        e

  -- `key` is the identity of the new subscription.
  pub subscribe_frames : ℕ → Option (List ℤ) → RelayEngine C R I → RelayEngine C R I × Raised
  subscribe_frames key message_ids e =
      with_hub
        (λ hub.
          let subscription = open_subscription key message_ids default_frame_queue_size in
          let (h, subscription', added) = add_frame_subscriber hub.0 subscription in
          (put_hub h hub.1 e, or_stopping added))
        e

  module _ (ops : Remote R) (joined : Destination R → Destination R) where
    pub remove_destination : String → RelayEngine C R I → RelayEngine C R I × Raised
    remove_destination name e =
        with_hub
          (λ hub.
            let (h, removed) = Hub.remove_destination ops joined hub.0 name in
            (put_hub h hub.1 e, or_not_found (elim removed [ none ↦ false | some d ↦ true ])))
          e

    pub stop_destination : String → RelayEngine C R I → RelayEngine C R I × Raised
    stop_destination name e =
        with_hub
          (λ hub.
            let (h, found) = Hub.stop_destination ops joined hub.0 name in
            (put_hub h hub.1 e, or_not_found found))
          e

    abbrev stop_hub : InputSource I → RelayEngine C R I → RelayEngine C R I
    stop_hub source e = elim e.hub [
      | none ↦ e
      | some (h, s) ↦
          let (h', s', ended) = Lifecycle.stop source ops joined h s in
          record (put_hub h' s' e) { hub = none }
    ]

    pub stop : InputSource I → RelayEngine C R I → RelayEngine C R I
    stop source e =
        let halted = record (stop_hub source e) { has_input_source = false; running = false } in
        if e.running then emit engine_stopped halted else e
