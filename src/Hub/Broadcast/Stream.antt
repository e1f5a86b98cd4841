-- ===== src/Hub/Broadcast/Stream.antt =====
-- From the bytes of a receiver to the queues of the destinations, through
-- src/sp_rtk_base_relay/core/broadcast_hub.py.
use sp_rtk_base_relay.Prelude.{ℕ, ◌≡◌, ◌∙◌, ap, List, [], map}
use mathlib.Core.List.{flatten}
use sp_rtk_base_relay.Rtcm.{Bytes}
use sp_rtk_base_relay.Framing.{Parsed}
use sp_rtk_base_relay.Framing.Streams.{Segments, IsStream, stream, frames_of, parse_chunks-stream}
use sp_rtk_base_relay.Hub.{BroadcastHub}
use sp_rtk_base_relay.Hub.Broadcast.{broadcast_all}
use sp_rtk_base_relay.Hub.Broadcast.Receives.{receives, gets, receives_lem}
use sp_rtk_base_relay.Hub.Broadcast.Paths.{
  chunk_bytes, IsParsing, broadcast_all-receives, map_agree,
}

module _ {R : Type 0} where
  -- A hub with an empty buffer reads a stream of frames with other bytes between them, in chunks of
  -- any size: whatever the destinations are, an enabled one that filters is handed exactly the frames
  -- of the stream that its filter lets through, in their order, with the others counted, an enabled
  -- one that does not filter is handed the chunks, and a disabled one nothing. The condition on the
  -- hub is that it parses if a destination filters.
  pub broadcast_all-stream :
      (segments : Segments) (chunks : List (ℕ × Bytes)) (h : BroadcastHub R)
      → IsStream segments
      → flatten (map chunk_bytes chunks) ≡ stream segments
      → h.frame_buffer ≡ []
      → IsParsing h
      → (broadcast_all chunks h).destinations
        ≡ map (gets (frames_of segments) (map chunk_bytes chunks)) h.destinations
  broadcast_all-stream segments chunks h v e empty parsing =
      let bytes = map chunk_bytes chunks in
      broadcast_all-receives chunks h parsing
      ∙ ap (λ buffer. map (receives buffer bytes) h.destinations) empty
      ∙ map_agree (receives [] bytes) (gets (frames_of segments) bytes) h.destinations (λ d.
        receives_lem [] bytes d
        ∙ ap (λ (p : List Parsed × Bytes). gets p.0 bytes d)
            (parse_chunks-stream segments bytes v e))
