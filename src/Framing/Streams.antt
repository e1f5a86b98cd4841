-- ===== src/Framing/Streams.antt =====
-- src/sp_rtk_base_relay/core/broadcast_hub.py on what a receiver sends: encoded frames with other
-- bytes between them, in chunks of any size.
use sp_rtk_base_relay.Prelude.{
  ℕ, ◌+◌, ◌*◌, ◌/◌, ◌<◌, ◌≡◌, ◌≢◌, refl, ◌∙◌, ap, subst, true, List, [], ◌∷◌, ◌++◌, arith, All,
  length, take, drop, drop_left, get_or, length-append, append-nil, some,
}
use mathlib.Core.List.{flatten}
use sp_rtk_base_relay.Rtcm.{
  Bytes, preamble, expected_frame_length, extract_message_id, is_valid_rtcm_frame,
}
use sp_rtk_base_relay.Rtcm.Encoding.{
  encode, IsPayload, length-encode, length_field-encode, take-encode, starts, is_valid-encode,
  decode-encode,
}
use sp_rtk_base_relay.Framing.{
  scan, skip, emit, Parsed, prepend, extract_complete_rtcm_frames, parse_frames, parse_chunks,
}
use sp_rtk_base_relay.Framing.Steps.{extract-nil, extract-skip, extract-frame}
use sp_rtk_base_relay.Framing.Chunks.{parse_chunks-flatten}

-- Bytes among which no frame starts.
abbrev pub IsQuiet : Bytes → Type 0
IsQuiet = All (λ b. b ≢ preamble)

scan_quiet : (b : ℕ) (rest : Bytes) → b ≢ preamble → scan (b ∷ rest) ≡ skip
unfolding scan
scan_quiet b rest h = ground arith

extract-quiet :
    (quiet rest : Bytes)
    → IsQuiet quiet
    → extract_complete_rtcm_frames (quiet ++ rest) ≡ extract_complete_rtcm_frames rest
extract-quiet [] rest h = refl
extract-quiet (b ∷ quiet) rest h =
    extract-skip b (quiet ++ rest) (scan_quiet b (quiet ++ rest) h.0) ∙ extract-quiet quiet rest h.1

-- What the hub makes of an encoded frame.
abbrev pub parsed : Bytes → Parsed
parsed payload = (get_or payload 0 0 * 16 + get_or payload 1 0 / 16, encode payload)

valid_alone :
    (payload : Bytes) → IsPayload payload → is_valid_rtcm_frame (encode payload) true ≡ true
valid_alone payload h =
    subst (λ f. is_valid_rtcm_frame f true ≡ true) (append-nil (encode payload))
      (is_valid-encode payload h [] true)

id_alone :
    (payload : Bytes)
    → IsPayload payload
    → extract_message_id (encode payload) true ≡ some (parsed payload).0
id_alone payload h =
    subst (λ f. extract_message_id f true ≡ some (parsed payload).0) (append-nil (encode payload))
      (decode-encode payload [] true h tt).1

scan-encode :
    (payload rest : Bytes)
    → IsPayload payload
    → scan (encode payload ++ rest) ≡ emit (expected_frame_length (encode payload ++ rest))
unfolding scan
scan-encode payload rest h = ground (
  arith,
  starts payload h rest,
  length_field-encode payload h rest,
  length-append (encode payload) rest,
  length-encode payload h,
  take-encode payload h rest,
  valid_alone payload h,
)

extract-encode :
    (payload rest : Bytes)
    → IsPayload payload
    → extract_complete_rtcm_frames (encode payload ++ rest)
      ≡ prepend (parsed payload ∷ []) (extract_complete_rtcm_frames rest)
extract-encode payload rest h =
    let n = expected_frame_length (encode payload ++ rest) in
    let frame : take n (encode payload ++ rest) ≡ encode payload = take-encode payload h rest in
    let left : drop n (encode payload ++ rest) ≡ rest =
      drop_left n (encode payload) rest
        (omega (arith, length_field-encode payload h rest, length-encode payload h)) in
    let some_bytes : 0 < length (encode payload ++ rest) =
      omega (arith, length-append (encode payload) rest, length-encode payload h) in
    rw (frame, left, id_alone payload h) at
      (extract-frame (encode payload ++ rest) n some_bytes (scan-encode payload rest h))

-- Segments of quiet bytes, each followed by the frame of a payload.
abbrev pub Segments : Type 0
Segments = List (Bytes × Bytes)

abbrev pub IsStream : Segments → Type 0
IsStream = All (λ (segment : Bytes × Bytes). IsQuiet segment.0 × IsPayload segment.1)

pub stream : Segments → Bytes
stream [] = []
stream ((quiet, payload) ∷ segments) = quiet ++ (encode payload ++ stream segments)

unfoldable pub frames_of : Segments → List Parsed
frames_of [] = []
frames_of ((quiet, payload) ∷ segments) = parsed payload ∷ frames_of segments

extract-stream :
    (segments : Segments)
    → IsStream segments
    → extract_complete_rtcm_frames (stream segments) ≡ (frames_of segments, [])
unfolding stream frames_of
extract-stream [] h = extract-nil
extract-stream ((quiet, payload) ∷ segments) h =
    extract-quiet quiet (encode payload ++ stream segments) h.0.0
    ∙ extract-encode payload (stream segments) h.0.1
    ∙ ap (prepend (parsed payload ∷ [])) (extract-stream segments h.1)

-- However a stream of encoded frames, with bytes other than the preamble between them, is cut into
-- chunks, the hub delimits exactly its frames, in order and with their message numbers, and keeps
-- no byte.
pub parse_chunks-stream :
    (segments : Segments) (chunks : List Bytes)
    → IsStream segments
    → flatten chunks ≡ stream segments
    → parse_chunks [] chunks ≡ (frames_of segments, [])
unfolding parse_frames
parse_chunks-stream segments chunks h e =
    rw extract-nil at (parse_chunks-flatten [] chunks)
    ∙ ap extract_complete_rtcm_frames e
    ∙ extract-stream segments h
