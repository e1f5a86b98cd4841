-- ===== src/Engine/Runs.antt =====
-- Runs of calls of the engine of src/sp_rtk_base_relay/engine.py.
-- Between the calls come rounds of the hub's two threads, and close() of frame subscriptions. The
-- engine's state does not have the hub's input queue: the input thread finds it as the turn says, and
-- the broadcast thread the chunk that the turn says.
use sp_rtk_base_relay.Prelude.{Option, none, List, [], ◌∷◌, ℕ, String, Bool}
use sp_rtk_base_relay.Prelude.Int.{ℤ}
use sp_rtk_base_relay.Rtcm.{Bytes}
use sp_rtk_base_relay.Config.Destinations.{DestinationConfig}
use sp_rtk_base_relay.Destination.{Destination, Remote}
use sp_rtk_base_relay.Factory.{Builders}
use sp_rtk_base_relay.InputFactory.{InputFactory}
use sp_rtk_base_relay.Hub.{BroadcastHub}
use sp_rtk_base_relay.Hub.Subscribers.{close_subscription}
use sp_rtk_base_relay.Hub.Broadcast.{broadcast, check_no_data_watchdog}
use sp_rtk_base_relay.Hub.Broadcast.Announced.{
  IsWithin, broadcast-IsWithin, watchdog-IsWithin, close-IsWithin,
}
use sp_rtk_base_relay.Hub.Input.{InputSource}
use sp_rtk_base_relay.Queue.{Queue}
use sp_rtk_base_relay.Hub.Feed.{Reading, input_round}
use sp_rtk_base_relay.Hub.Feed.Announced.{input_round-IsWithin}
use sp_rtk_base_relay.Engine.{
  RelayEngine, put_hub, with_hub, start, stop, add_destination, remove_destination,
  start_destination, stop_destination, subscribe_frames,
}
use sp_rtk_base_relay.Engine.Running.{IsSteady, put-IsSteady, with_hub-IsSteady}
use sp_rtk_base_relay.Engine.Requests.{
  add-IsSteady, remove-IsSteady, start_one-IsSteady, stop_one-IsSteady, subscribe-IsSteady,
}
use sp_rtk_base_relay.Engine.Starts.{start-IsSteady, stop-IsSteady}

-- A call, or what comes between the calls, with the times, texts and identities that it needs.
pub data Call : Type 0 where
  starts : String → ℕ → List DestinationConfig → Call
  stops : Call
  adds : DestinationConfig → Call
  removes : String → Call
  starts_one : String → Call
  stops_one : String → Call
  subscribes : ℕ → Option (List ℤ) → Call
  closes : ℕ → Call
  round : ℕ → Bytes → Call
  quiet_round : ℕ → Call
  input_turn : Queue (Option Bytes) → String → List Bool → Call

module _ {C : Type 0} {S : Type 0} {R : Type 0} {I : Type 0} (source : InputSource I)
    (inputs : InputFactory C S I) (builders : Builders R) (ops : Remote R)
    (joined : Destination R → Destination R) (read_data : I → Reading × I) where
  -- A round of the input thread.
  pub read_round : Queue (Option Bytes) → String → List Bool → RelayEngine C R I → RelayEngine C R I
  read_round q otherwise answers e =
      (with_hub
        (λ hub.
          let (f, put) =
            input_round source read_data otherwise answers
              (record { hub = hub.0; side = hub.1; input_queue = q }) in
          (put_hub f.hub f.side e, none))
        e).0

  -- What the hub's thread or a subscriber does to the hub.
  pub hub_round : (BroadcastHub R → BroadcastHub R) → RelayEngine C R I → RelayEngine C R I
  hub_round f e = (with_hub (λ hub. (put_hub (f hub.0) hub.1 e, none)) e).0

  pub call : RelayEngine C R I → Call → RelayEngine C R I
  call e (starts otherwise now configs) = (start source otherwise now inputs builders configs e).0
  call e stops = stop ops joined source e
  call e (adds config) = (add_destination builders config e).0
  call e (removes name) = (remove_destination ops joined name e).0
  call e (starts_one name) = (start_destination name e).0
  call e (stops_one name) = (stop_destination ops joined name e).0
  call e (subscribes key message_ids) = (subscribe_frames key message_ids e).0
  call e (closes key) = hub_round (λ h. (close_subscription h key).0) e
  call e (round now bytes) = hub_round (broadcast now bytes) e
  call e (quiet_round now) = hub_round (check_no_data_watchdog now) e
  call e (input_turn q otherwise answers) = read_round q otherwise answers e

  pub run : RelayEngine C R I → List Call → RelayEngine C R I
  run e [] = e
  run e (c ∷ calls) = run (call e c) calls

  round-IsSteady :
      (e : RelayEngine C R I) (f : BroadcastHub R → BroadcastHub R)
      → ((h : BroadcastHub R) → IsWithin h (f h))
      → IsSteady e
      → IsSteady (hub_round f e)
  unfolding hub_round
  round-IsSteady e f within v =
      with_hub-IsSteady e v (λ hub. (put_hub (f hub.0) hub.1 e, none))
        (λ h s on up clear. put-IsSteady e v h (f h) s on up clear (within h))

  read-IsSteady :
      (e : RelayEngine C R I) (q : Queue (Option Bytes)) (otherwise : String) (answers : List Bool)
      → IsSteady e
      → IsSteady (read_round q otherwise answers e)
  unfolding read_round
  read-IsSteady e q otherwise answers v = with_hub-IsSteady e v _ (λ h s on up clear.
      put-IsSteady e v h _ _ on up clear (
        input_round-IsWithin source read_data otherwise answers
          (record { hub = h; side = s; input_queue = q })))

  call-IsSteady : (e : RelayEngine C R I) (c : Call) → IsSteady e → IsSteady (call e c)
  unfolding call
  call-IsSteady e (starts otherwise now configs) v =
      start-IsSteady source inputs builders otherwise now configs e v
  call-IsSteady e stops v = stop-IsSteady source e v ops joined
  call-IsSteady e (adds config) v = add-IsSteady e v builders config
  call-IsSteady e (removes name) v = remove-IsSteady e v ops joined name
  call-IsSteady e (starts_one name) v = start_one-IsSteady e v name
  call-IsSteady e (stops_one name) v = stop_one-IsSteady e v ops joined name
  call-IsSteady e (subscribes key message_ids) v = subscribe-IsSteady e v key message_ids
  call-IsSteady e (closes key) v = round-IsSteady e _ (close-IsWithin key) v
  call-IsSteady e (round now bytes) v = round-IsSteady e _ (broadcast-IsWithin now bytes) v
  call-IsSteady e (quiet_round now) v = round-IsSteady e _ (watchdog-IsWithin now) v
  call-IsSteady e (input_turn q otherwise answers) v = read-IsSteady e q otherwise answers v

  -- An engine of which the following holds, as it does of a new one, keeps it whatever calls come, in
  -- any order, with rounds of the hub's threads and closed subscriptions between them: if it runs, it
  -- has an input source and a running hub; if not, it has no running hub; and the events on the bus
  -- are those of complete runs in order (input connected, hub started, engine started, reports, hub
  -- stopped, engine stopped), with one more run up to its reports exactly if the engine runs. Reports
  -- are the events of destinations, of missing data and of the input lost and connected again.
  pub run-IsSteady :
      (e : RelayEngine C R I) (calls : List Call) → IsSteady e → IsSteady (run e calls)
  unfolding run
  run-IsSteady e [] v = v
  run-IsSteady e (c ∷ calls) v = run-IsSteady (call e c) calls (call-IsSteady e c v)
