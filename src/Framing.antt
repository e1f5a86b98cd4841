-- ===== src/Framing.antt =====
-- _extract_complete_rtcm_frames and _parse_frames of src/sp_rtk_base_relay/core/broadcast_hub.py:
-- the hub's delimiting of RTCM frames in the bytes that it has read.
-- The loop over `offset` is written on the bytes from `offset` on; what is left of them is the new
-- `_frame_buffer`. Its fuel is one round for each byte, and every round that goes on drops one.
pub mod Steps
pub mod Chunks
pub mod Streams
pub mod Results
pub mod Pipeline
mod Tests
use sp_rtk_base_relay.Prelude.{
  ℕ, zero, suc, ◌+◌, Bool, true, false, not, Option, none, some, List, [], ◌∷◌, ◌++◌, length,
  get_or, take, drop, ltb, ◌==◌, if◌then◌else◌,
}
use sp_rtk_base_relay.Rtcm.{
  Bytes, preamble, length_field, expected_frame_length, is_valid_rtcm_frame, extract_message_id,
}

-- What one round does at an offset: move on by one byte, stop, or take a frame of that length.
pub data Scan : Type 0 where
  skip : Scan
  wait : Scan
  emit : ℕ → Scan

pub scan : Bytes → Scan
scan buf =
    if not (get_or buf 0 0 == preamble)
    then skip
    else if ltb (length buf) 3
    then wait
    else if ltb 1023 (length_field buf)
    then skip
    else if ltb (length buf) (expected_frame_length buf)
    then wait
    else if is_valid_rtcm_frame (take (expected_frame_length buf) buf) true
    then emit (expected_frame_length buf)
    else skip

-- (message_id, frame_bytes)
abbrev pub Parsed : Type 0
Parsed = ℕ × Bytes

-- The frames found, and the bytes kept for the next call.
abbrev pub Delimited : Type 0
Delimited = List Parsed × Bytes

abbrev pub prepend : List Parsed → Delimited → Delimited
prepend found (more, left) = (found ++ more, left)

-- `if msg_id is not None: results.append((msg_id, frame))`
abbrev pub found_frame : Option ℕ → Bytes → List Parsed
found_frame none frame = []
found_frame (some msg_id) frame = (msg_id, frame) ∷ []

pub frames_loop : ℕ → Bytes → Delimited
frames_loop zero buf = ([], buf)
frames_loop (suc fuel) [] = ([], [])
frames_loop (suc fuel) (b ∷ rest) = elim (scan (b ∷ rest)) [
  | skip ↦ frames_loop fuel rest
  | wait ↦ ([], b ∷ rest)
  | emit n ↦
      let frame = take n (b ∷ rest) in
      prepend (found_frame (extract_message_id frame true) frame)
        (frames_loop fuel (drop n (b ∷ rest)))
]

pub extract_complete_rtcm_frames : Bytes → Delimited
extract_complete_rtcm_frames buf = frames_loop (length buf) buf

-- Appends to the buffer that the last call kept.
pub parse_frames : Bytes → Bytes → Delimited
parse_frames frame_buffer chunk = extract_complete_rtcm_frames (frame_buffer ++ chunk)

-- One call for each chunk that arrives, with the frames of all calls in order.
pub parse_chunks : Bytes → List Bytes → Delimited
parse_chunks frame_buffer [] = ([], frame_buffer)
parse_chunks frame_buffer (chunk ∷ chunks) =
    let (found, left) = parse_frames frame_buffer chunk in prepend found (parse_chunks left chunks)
