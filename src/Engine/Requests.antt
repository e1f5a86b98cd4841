-- ===== src/Engine/Requests.antt =====
-- Each call of a running engine of src/sp_rtk_base_relay/engine.py keeps it steady.
use sp_rtk_base_relay.Prelude.{◌≡◌, true, Option, none, some, List, [], ℕ, String}
use sp_rtk_base_relay.Prelude.Int.{ℤ}
use sp_rtk_base_relay.Config.Destinations.{DestinationConfig}
use sp_rtk_base_relay.Destination.{Destination, Remote}
use sp_rtk_base_relay.Factory.{Builders, Outcome, done, raises, create}
use sp_rtk_base_relay.Hub
use sp_rtk_base_relay.Hub.{BroadcastHub, new_hub, input_connected, hub_started, hub_stopped}
use sp_rtk_base_relay.Hub.Broadcast.Announced.{
  IsAddedWithin, add-IsAddedWithin, start_destination-IsWithin, stop_destination-IsWithin,
  remove_destination-IsWithin, subscribe-IsWithin,
}
use sp_rtk_base_relay.Hub.Input.{InputSide}
use sp_rtk_base_relay.Engine.{
  RelayEngine, add_created, put_added, add_destination, remove_destination, start_destination,
  stop_destination, subscribe_frames,
}
use sp_rtk_base_relay.Engine.Running.{IsSteady, put-IsSteady, with_hub-IsSteady}

module _ {C : Type 0} {R : Type 0} {I : Type 0} (e : RelayEngine C R I) (v : IsSteady e) where
  created-IsSteady :
      (h : BroadcastHub R) (s : InputSide I) (outcome : Outcome (Destination R))
      → e.running ≡ true
      → h.running ≡ true
      → h.emitted ≡ []
      → IsSteady (add_created h s outcome e).0
  created-IsSteady h s (raises error) on up clear = v
  created-IsSteady h s (done dest) on up clear =
      put_added-IsSteady (Hub.add_destination h dest) (add-IsAddedWithin h dest)
    where
      put_added-IsSteady :
          (o : Option (BroadcastHub R)) → IsAddedWithin h o → IsSteady (put_added s o e).0
      put_added-IsSteady none within = v
      put_added-IsSteady (some h') within = put-IsSteady e v h h' s on up clear within

  pub add-IsSteady :
      (builders : Builders R) (config : DestinationConfig)
      → IsSteady (add_destination builders config e).0
  unfolding add_destination
  add-IsSteady builders config =
      with_hub-IsSteady e v _ (λ h s. created-IsSteady h s (create builders config))

  pub remove-IsSteady :
      (ops : Remote R) (joined : Destination R → Destination R) (name : String)
      → IsSteady (remove_destination ops joined name e).0
  unfolding remove_destination
  remove-IsSteady ops joined name = with_hub-IsSteady e v _ (λ h s on up clear.
      put-IsSteady e v h _ s on up clear (remove_destination-IsWithin ops joined h name))

  pub start_one-IsSteady : (name : String) → IsSteady (start_destination name e).0
  unfolding start_destination
  start_one-IsSteady name =
      with_hub-IsSteady e v _
        (λ h s on up clear. put-IsSteady e v h _ s on up clear (start_destination-IsWithin h name))

  pub stop_one-IsSteady :
      (ops : Remote R) (joined : Destination R → Destination R) (name : String)
      → IsSteady (stop_destination ops joined name e).0
  unfolding stop_destination
  stop_one-IsSteady ops joined name = with_hub-IsSteady e v _ (λ h s on up clear.
      put-IsSteady e v h _ s on up clear (stop_destination-IsWithin ops joined h name))

  pub subscribe-IsSteady :
      (key : ℕ) (message_ids : Option (List ℤ)) → IsSteady (subscribe_frames key message_ids e).0
  unfolding subscribe_frames
  subscribe-IsSteady key message_ids =
      with_hub-IsSteady e v _
        (λ h s on up clear. put-IsSteady e v h _ s on up clear (subscribe-IsWithin h _))
