-- ===== src/Hub.antt =====
-- src/sp_rtk_base_relay/core/broadcast_hub.py: the hub's destinations and frame subscribers, and how
-- it hands a chunk to them. Framing.antt is about its delimiting of frames.
-- Each method is one step. `ops` and `joined` are as in Destination: the subclass, and what a
-- destination's thread does until stop() has joined it. The list of emitted events is the event
-- bus's part that the hub sees; an object's identity is `key` for a subscription, and its name for a
-- destination, since two destinations of one name are not let in.
pub mod Subscribers
pub mod Broadcast
pub mod Consistency
pub mod Input
pub mod Lifecycle
pub mod Feed
use sp_rtk_base_relay.Prelude.{
  ℕ, zero, suc, ◌+◌, ◌-◌, String, Bool, true, false, not, ◌&&◌, ◌||◌, Option, none, some, List, [],
  ◌∷◌, ◌++◌, map, length, leb, ltb, ◌==◌, if◌then◌else◌,
}
use sp_rtk_base_relay.Prelude.Text.{same_text}
use sp_rtk_base_relay.Rtcm.{Bytes}
use sp_rtk_base_relay.Framing.{Parsed, parse_frames}
use sp_rtk_base_relay.Filter.{requires_parsing, filter_frames, is_empty}
use sp_rtk_base_relay.Queue.{Queue, new}
use sp_rtk_base_relay.Destination.{Destination, Remote, Item, DestinationStats, enqueue}
use sp_rtk_base_relay.Destination
use sp_rtk_base_relay.Subscription.{Frame, FrameSubscription, close, offer}

pub data HubEvent : Type 0 where
  destination_added : String → String → HubEvent
  destination_removed : String → HubEvent
  no_data_warning : ℕ → ℕ → HubEvent
  input_disconnected : String → HubEvent
  input_reconnecting : ℕ → HubEvent
  input_reconnected : String → ℕ → HubEvent
  input_connected : String → HubEvent
  hub_started : List String → HubEvent
  hub_stopped : HubEvent

pub record BroadcastStats : Type 0 where
  pub bytes_received : ℕ
  pub chunks_received : ℕ
  pub frames_parsed : ℕ
  pub chunks_distributed : ℕ
  pub last_data_time : ℕ
  pub started_at : Option ℕ
  pub no_data_warnings : ℕ

pub record BroadcastHub (R : Type 0) : Type 0 where
  pub destinations : List (Destination R)
  pub running : Bool
  pub stats : BroadcastStats
  pub frame_buffer : Bytes
  pub frame_subscribers : List FrameSubscription
  pub removed_subscriber_drops : ℕ
  pub any_needs_parsing : Bool
  pub emitted : List HubEvent

-- `any(d.message_filter.requires_parsing for d in self._destinations)`
unfoldable pub any_filters : {R : Type 0} → List (Destination R) → Bool
any_filters [] = false
any_filters (d ∷ rest) = requires_parsing d.filter || any_filters rest

abbrev no_hub_stats : BroadcastStats
no_hub_stats = record {
  bytes_received = 0;
  chunks_received = 0;
  frames_parsed = 0;
  chunks_distributed = 0;
  last_data_time = 0;
  started_at = none;
  no_data_warnings = 0;
}

pub new_hub : {R : Type 0} → List (Destination R) → BroadcastHub R
unfolding any_filters
new_hub destinations = record {
  destinations = destinations;
  running = false;
  stats = no_hub_stats;
  frame_buffer = [];
  frame_subscribers = [];
  removed_subscriber_drops = 0;
  any_needs_parsing = any_filters destinations;
  emitted = [];
}

unfoldable pub recalculate_needs_parsing : {R : Type 0} → BroadcastHub R → BroadcastHub R
recalculate_needs_parsing h =
    let needs = not (is_empty h.frame_subscribers) || any_filters h.destinations in
    let h' = record h { any_needs_parsing = needs } in
    if h.any_needs_parsing && not needs then record h' { frame_buffer = [] } else h'

unfoldable pub emit : {R : Type 0} → BroadcastHub R → HubEvent → BroadcastHub R
emit h event = record h { emitted = h.emitted ++ event ∷ [] }

pub get_in : {R : Type 0} → List (Destination R) → String → Option (Destination R)
get_in [] name = none
get_in (d ∷ rest) name =
    let later = get_in rest name in if same_text d.name name then some d else later

pub get_destination : {R : Type 0} → BroadcastHub R → String → Option (Destination R)
get_destination h name = get_in h.destinations name

unfoldable pub get_destination_names : {R : Type 0} → BroadcastHub R → List String
get_destination_names {R} h = map (λ (d : Destination R). d.name) h.destinations

-- The ValueError is `none`.
pub add_destination : {R : Type 0} → BroadcastHub R → Destination R → Option (BroadcastHub R)
unfolding get_in
add_destination h dest = elim (get_in h.destinations dest.name) [
  | some existing ↦ none
  | none ↦
      let dest' = if h.running then (Destination.start dest).0 else dest in
      let h' =
        recalculate_needs_parsing (record h { destinations = h.destinations ++ dest' ∷ [] }) in
      some (emit h' (destination_added dest.name dest.destination_type))
]

push_front :
    {R : Type 0}
    → Destination R
    → Option (Destination R × List (Destination R))
    → Option (Destination R × List (Destination R))
push_front d none = none
push_front d (some (found, others)) = some (found, d ∷ others)

-- The first destination of that name taken out of the list.
pub pop_named :
    {R : Type 0} → List (Destination R) → String → Option (Destination R × List (Destination R))
unfolding push_front
pop_named [] name = none
pop_named (d ∷ rest) name =
    let later = pop_named rest name in
    if same_text d.name name then some (d, rest) else push_front d later

-- What `f` does to the destination that get_destination finds.
pub update_named :
    {R : Type 0}
    → (Destination R → Destination R)
    → String
    → List (Destination R)
    → List (Destination R)
update_named f name [] = []
update_named f name (d ∷ rest) =
    let later = update_named f name rest in if same_text d.name name then f d ∷ rest else d ∷ later

pub is_found : {R : Type 0} → Option (Destination R) → Bool
is_found none = false
is_found (some d) = true

pub start_destination : {R : Type 0} → BroadcastHub R → String → BroadcastHub R × Bool
unfolding update_named is_found
start_destination {R} h name =
    let restart = λ (d : Destination R). (Destination.start (record d { enabled = true })).0 in
    (
      record h { destinations = update_named restart name h.destinations },
      is_found (get_destination h name),
    )

module _ {R : Type 0} (ops : Remote R) (joined : Destination R → Destination R) where
  pub remove_destination : BroadcastHub R → String → BroadcastHub R × Option (Destination R)
  remove_destination h name = elim (pop_named h.destinations name) [
    | none ↦ (h, none)
    | some (removed, others) ↦
        let h' = recalculate_needs_parsing (record h { destinations = others }) in
        (emit h' (destination_removed name), some (Destination.stop ops joined removed))
  ]

  pub stop_destination : BroadcastHub R → String → BroadcastHub R × Bool
  unfolding update_named is_found
  stop_destination h name =
      let halt =
        λ (d : Destination R). Destination.stop ops joined (record d { enabled = false }) in
      (
        record h { destinations = update_named halt name h.destinations },
        is_found (get_destination h name),
      )
