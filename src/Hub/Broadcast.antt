-- ===== src/Hub/Broadcast.antt =====
-- The broadcast thread of the hub of src/sp_rtk_base_relay/core/broadcast_hub.py: how a chunk
-- reaches the destinations and the frame subscribers.
pub mod Announced
pub mod Quiet
pub mod Receives
pub mod Paths
pub mod Offers
pub mod Stream
pub mod Kept
use sp_rtk_base_relay.Prelude.{
  ℕ, zero, suc, ◌+◌, ◌-◌, Bool, true, false, not, Option, none, some, List, [], ◌∷◌, ◌++◌, map,
  length, leb, ◌==◌, if◌then◌else◌,
}
use sp_rtk_base_relay.Rtcm.{Bytes}
use sp_rtk_base_relay.Framing.{Parsed, parse_frames}
use sp_rtk_base_relay.Filter.{requires_parsing, filter_frames, is_empty}
use sp_rtk_base_relay.Destination.{Destination, enqueue}
use sp_rtk_base_relay.Subscription.{Frame, FrameSubscription, offer}
use sp_rtk_base_relay.Hub.{BroadcastHub, BroadcastStats, HubEvent, no_data_warning, emit}

abbrev pub as_frame : Parsed → Frame
as_frame (msg_id, frame_bytes) = record { message_id = msg_id; data_bytes = frame_bytes }

-- Every subscriber is offered every frame.
pub offer_loop : List Parsed → List FrameSubscription → List FrameSubscription
offer_loop [] subscribers = subscribers
offer_loop (frame ∷ frames) subscribers =
    offer_loop frames
      (map (λ (sub : FrameSubscription). (offer sub (as_frame frame)).0) subscribers)

abbrev no_data_warning_seconds : ℕ
no_data_warning_seconds = 30

module _ {R : Type 0} where
  pub enqueue_all : List Bytes → Destination R → Destination R
  enqueue_all [] d = d
  enqueue_all (bytes ∷ rest) d = enqueue_all rest (enqueue d bytes).0

  pub add_filtered : ℕ → Destination R → Destination R
  add_filtered n d = record d {
    stats = record d.stats { messages_filtered = d.stats.messages_filtered + n };
  }

  pub deliver_raw : Bytes → Destination R → Destination R
  deliver_raw bytes d = if d.enabled then (enqueue d bytes).0 else d

  -- One destination's turn in `_distribute_filtered`.
  pub deliver_filtered : Bytes → List Parsed → Destination R → Destination R
  deliver_filtered bytes parsed_frames d =
      let accepted = filter_frames d.filter parsed_frames in
      if not d.enabled
      then d
      else if not (requires_parsing d.filter)
      then (enqueue d bytes).0
      else if is_empty parsed_frames
      then d
      else enqueue_all accepted (add_filtered (length parsed_frames - length accepted) d)

  pub distribute_raw : Bytes → BroadcastHub R → BroadcastHub R
  distribute_raw bytes h = record h { destinations = map (deliver_raw bytes) h.destinations }

  pub distribute_filtered : Bytes → BroadcastHub R → BroadcastHub R
  distribute_filtered bytes h =
      let (parsed_frames, left) = parse_frames h.frame_buffer bytes in
      record h {
        frame_buffer = left;
        stats = record h.stats { frames_parsed = h.stats.frames_parsed + length parsed_frames };
        frame_subscribers = offer_loop parsed_frames h.frame_subscribers;
        destinations = map (deliver_filtered bytes parsed_frames) h.destinations;
      }

  -- A round of `_broadcast_loop` that got a chunk.
  pub broadcast : ℕ → Bytes → BroadcastHub R → BroadcastHub R
  broadcast now bytes h =
      let received = record h {
        stats = record h.stats {
          bytes_received = h.stats.bytes_received + length bytes;
          chunks_received = h.stats.chunks_received + 1;
          last_data_time = now;
        };
      } in
      let given =
        if h.any_needs_parsing
        then distribute_filtered bytes received
        else distribute_raw bytes received in
      record given {
        stats = record given.stats { chunks_distributed = given.stats.chunks_distributed + 1 };
      }

  -- Rounds for chunks that came at these times.
  pub broadcast_all : List (ℕ × Bytes) → BroadcastHub R → BroadcastHub R
  broadcast_all [] h = h
  broadcast_all ((now, bytes) ∷ chunks) h = broadcast_all chunks (broadcast now bytes h)

  warn_after : ℕ → BroadcastHub R → BroadcastHub R
  warn_after elapsed h =
      let warnings = h.stats.no_data_warnings + 1 in
      if leb no_data_warning_seconds elapsed
      then emit (record h { stats = record h.stats { no_data_warnings = warnings } })
          (no_data_warning elapsed warnings)
      else h

  -- Whole seconds; the clock does not go back.
  pub check_no_data_watchdog : ℕ → BroadcastHub R → BroadcastHub R
  unfolding warn_after
  check_no_data_watchdog now h =
      if h.stats.last_data_time == 0
      then elim h.stats.started_at [ none ↦ h | some started_at ↦ warn_after (now - started_at) h ]
      else warn_after (now - h.stats.last_data_time) h
