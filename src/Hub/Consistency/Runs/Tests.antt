-- ===== src/Hub/Consistency/Runs/Tests.antt =====
-- A hub of src/sp_rtk_base_relay/core/broadcast_hub.py with one destination for all bytes and one
-- for message 1005.
use sp_rtk_base_relay.Prelude.{
  ℕ, ◌≡◌, ◌≢◌, refl, String, true, false, none, some, List, [], ◌∷◌, ◌++◌, map,
}
use sp_rtk_base_relay.Prelude.Text.{same_text, same_text_iff}
use sp_rtk_base_relay.Prelude.Int.{pos}
use sp_rtk_base_relay.Rtcm.{Bytes}
use sp_rtk_base_relay.Filter.{FilterConfig, pass_all, allowlist, requires_parsing}
use sp_rtk_base_relay.Destination.{Remote, Destination, no_stats}
use sp_rtk_base_relay.Subscription.{FrameSubscription, open_subscription, drain}
use sp_rtk_base_relay.Hub.{BroadcastHub, any_filters}
use sp_rtk_base_relay.Hub.Broadcast.{broadcast_all}
use sp_rtk_base_relay.Hub.Broadcast.Offers.{wanted_of, broadcast_all-drain}
use sp_rtk_base_relay.Hub.Broadcast.Paths.{chunk_bytes, broadcast_all-receives}
use sp_rtk_base_relay.Hub.Broadcast.Receives.{receives, gets}
use sp_rtk_base_relay.Hub.Broadcast.Stream.{broadcast_all-stream}
use sp_rtk_base_relay.Framing.Streams.{Segments, stream, frames_of}
use mathlib.Core.List.{flatten}
use native.Mathlib.Omega.{arith}
use sp_rtk_base_relay.Prelude.{append-nil}
use sp_rtk_base_relay.Hub.Consistency.{IsConsistent}
use sp_rtk_base_relay.Hub.Consistency.Runs.{
  Event, add, remove, stop, start, subscribe, unsubscribe, close, chunk, quiet, run,
  run-IsConsistent,
}

record Wire : Type 0 where
  got : List Bytes

abbrev wire : Remote Wire
wire = record {
  connect = λ w. (none, w);
  disconnect = λ w. w;
  send_data = λ bytes w. (none, record w { got = w.got ++ bytes ∷ [] });
  is_connected = λ w. true;
}

abbrev everything : FilterConfig
everything = record { mode = pass_all; message_ids = [] }

abbrev stations : FilterConfig
stations = record { mode = allowlist; message_ids = pos 1005 ∷ [] }

abbrev destination : FilterConfig → Destination Wire
destination filter = record {
  name = "first";
  destination_type = "ntrip";
  enabled = true;
  stats = no_stats;
  filter = filter;
  queue = record { items = []; maxsize = 2 };
  running = true;
  remote = record { got = [] };
}

abbrev hub : BroadcastHub Wire
hub = record {
  destinations = destination everything ∷ record (destination stations) { name = "second" } ∷ [];
  running = true;
  stats = record {
    bytes_received = 0;
    chunks_received = 0;
    frames_parsed = 0;
    chunks_distributed = 0;
    last_data_time = 0;
    started_at = some 1;
    no_data_warnings = 0;
  };
  frame_buffer = 0xD3 ∷ [];
  frame_subscribers = [];
  removed_subscriber_drops = 0;
  any_needs_parsing = true;
  emitted = [];
}

not_same : (s t : String) → same_text s t ≡ false → s ≢ t
not_same s t h e = cc ((same_text_iff s t).1 e, h)

hub-IsConsistent : IsConsistent hub
unfolding any_filters requires_parsing same_text
hub-IsConsistent = record {
  unique = ((not_same "second" "first" refl, tt), (tt, tt));
  parsing = refl;
  buffer = λ off. cc off;
}

abbrev events : List (Event Wire)
events =
    chunk 5 (0x00 ∷ 0x02 ∷ 0x3E ∷ 0xD0 ∷ [])
    ∷ subscribe (open_subscription 1 none 4)
    ∷ add (destination stations)
    ∷ stop "second" (6 ∷ [])
    ∷ remove "first" (7 ∷ 8 ∷ [])
    ∷ start "second"
    ∷ chunk 9 (0xA4 ∷ [])
    ∷ close 1
    ∷ quiet 50
    ∷ unsubscribe 1
    ∷ []

run-IsConsistent_example : IsConsistent (run wire hub events)
run-IsConsistent_example = run-IsConsistent wire hub events hub-IsConsistent

abbrev chunks : List (ℕ × Bytes)
chunks = (5, 0x00 ∷ 0x02 ∷ 0x3E ∷ 0xD0 ∷ []) ∷ (6, 0xA4 ∷ 0xE0 ∷ 0x00 ∷ []) ∷ []

broadcast_all-receives_example :
    (broadcast_all chunks hub).destinations
    ≡ map (receives hub.frame_buffer (map chunk_bytes chunks)) hub.destinations
broadcast_all-receives_example = broadcast_all-receives chunks hub (λ off. cc off)

abbrev segments : Segments
segments = (0x01 ∷ [], 0x3E ∷ 0xD0 ∷ []) ∷ ([], 0x43 ∷ 0x50 ∷ 0x07 ∷ []) ∷ []

abbrev started : BroadcastHub Wire
started = record hub { frame_buffer = [] }

one_chunk : flatten (map chunk_bytes ((5, stream segments) ∷ [])) ≡ stream segments
unfolding flatten
one_chunk = append-nil (stream segments)

broadcast_all-stream_example :
    (broadcast_all ((5, stream segments) ∷ []) started).destinations
    ≡ map
        (gets (frames_of segments) (map chunk_bytes ((5, stream segments) ∷ [])))
        started.destinations
broadcast_all-stream_example =
    broadcast_all-stream segments ((5, stream segments) ∷ []) started (omega arith) one_chunk refl
      (λ off. cc off)

abbrev subscribed : BroadcastHub Wire
subscribed = record started {
  frame_subscribers =
      open_subscription 1 none 4 ∷ open_subscription 2 (some (pos 1077 ∷ [])) 2 ∷ [];
}

broadcast_all-drain_example :
    map
      (λ s. (drain s none).1)
      (broadcast_all ((5, stream segments) ∷ []) subscribed).frame_subscribers
    ≡ map
        (λ (s : FrameSubscription). wanted_of s.message_ids (frames_of segments))
        subscribed.frame_subscribers
unfolding open_subscription frames_of
broadcast_all-drain_example =
    broadcast_all-drain segments ((5, stream segments) ∷ []) subscribed (omega arith) one_chunk refl
      refl
      (
        record { opened = refl; empty = refl; room = λ sized. omega arith },
        (record { opened = refl; empty = refl; room = λ sized. omega arith }, tt),
      )
