-- ===== src/Framing/Tests.antt =====
-- Runs of the delimiting of src/sp_rtk_base_relay/core/broadcast_hub.py, and its theorems at
-- concrete buffers.
use sp_rtk_base_relay.Prelude.{◌≡◌, [], ◌∷◌, append-nil, arith}
use mathlib.Core.List.{flatten}
use sp_rtk_base_relay.Rtcm.{Bytes}
use sp_rtk_base_relay.Framing.{extract_complete_rtcm_frames, parse_chunks}
use sp_rtk_base_relay.Framing.Streams.{Segments, stream, frames_of, parse_chunks-stream}
use sp_rtk_base_relay.Framing.Pipeline.{pipeline_frames, without_ids, pipeline_frames-eq}
use sp_rtk_base_relay.Framing.Results.{IsSound, extract-IsSound}

abbrev segments : Segments
segments = (0x01 ∷ [], 0x3E ∷ 0xD0 ∷ []) ∷ ([], 0x43 ∷ 0x50 ∷ 0x07 ∷ []) ∷ []

one_chunk : flatten (stream segments ∷ []) ≡ stream segments
unfolding flatten
one_chunk = append-nil (stream segments)

parse_chunks-stream_example : parse_chunks [] (stream segments ∷ []) ≡ (frames_of segments, [])
parse_chunks-stream_example =
    parse_chunks-stream segments (stream segments ∷ []) (omega arith) one_chunk

extract-IsSound_example :
    IsSound (0xD3 ∷ 0x00 ∷ []) (extract_complete_rtcm_frames (0xD3 ∷ 0x00 ∷ []))
extract-IsSound_example = extract-IsSound (0xD3 ∷ 0x00 ∷ []) (omega arith)

abbrev noisy : Bytes
noisy = 0x07 ∷ 0xD3 ∷ 0xD3 ∷ 0x00 ∷ 0x02 ∷ 0x3E ∷ 0xD0 ∷ 0xA4 ∷ 0xE0 ∷ 0x00 ∷ 0xD3 ∷ 0x00 ∷ []

pipeline_frames-eq_example :
    pipeline_frames noisy ≡ without_ids (extract_complete_rtcm_frames noisy)
pipeline_frames-eq_example = pipeline_frames-eq noisy (omega arith)
