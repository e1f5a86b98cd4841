-- ===== src/Framing/Pipeline.antt =====
-- _extract_complete_rtcm_frames of src/sp_rtk_base_relay/core/data_pipeline.py: the older pipeline
-- delimits frames for its metrics by a loop of its own, here on the bytes from `offset` on.
use sp_rtk_base_relay.Prelude.{
  ℕ, zero, suc, ◌≡◌, refl, ap, true, not, List, [], ◌∷◌, map, All-take, All-drop, length, take,
  drop, ltb, ◌==◌, Bool-cases, inl, inr, if◌then◌else◌,
}
use sp_rtk_base_relay.Rtcm.{
  Bytes, IsByte, IsBytes, preamble, length_field, expected_frame_length, is_valid_rtcm_frame,
}
use sp_rtk_base_relay.Rtcm.Fields.{extract_of_valid}
use sp_rtk_base_relay.Framing.{Parsed, Delimited, scan, frames_loop, extract_complete_rtcm_frames}

unfoldable pub pipeline_loop : ℕ → Bytes → List Bytes × Bytes
pipeline_loop zero buf = ([], buf)
pipeline_loop (suc fuel) [] = ([], [])
pipeline_loop (suc fuel) (b ∷ rest) =
    let buf = b ∷ rest in
    let frame = take (expected_frame_length buf) buf in
    let skipped = pipeline_loop fuel rest in
    let (frames, left) = pipeline_loop fuel (drop (expected_frame_length buf) buf) in
    if not (b == preamble)
    then skipped
    else if ltb (length buf) 3
    then ([], buf)
    else if ltb 1023 (length_field buf)
    then skipped
    else if ltb (length buf) (expected_frame_length buf)
    then ([], buf)
    else if is_valid_rtcm_frame frame true
    then (frame ∷ frames, left)
    else skipped

unfoldable pub pipeline_frames : Bytes → List Bytes × Bytes
unfolding pipeline_loop
pipeline_frames frame_buffer = pipeline_loop (length frame_buffer) frame_buffer

-- What the hub delimits, without the message numbers.
pub without_ids : Delimited → List Bytes × Bytes
without_ids (found, left) = (map (λ (frame : Parsed). frame.1) found, left)

pipeline_loop-without_ids :
    (fuel : ℕ) (buf : Bytes)
    → IsBytes buf
    → pipeline_loop fuel buf ≡ without_ids (frames_loop fuel buf)
unfolding pipeline_loop frames_loop scan without_ids
pipeline_loop-without_ids zero buf h = refl
pipeline_loop-without_ids (suc fuel) [] h = refl
pipeline_loop-without_ids (suc fuel) (b ∷ rest) h =
    let buf = b ∷ rest in
    let n = expected_frame_length buf in
    let skipped = pipeline_loop-without_ids fuel rest h.1 in
    let found = pipeline_loop-without_ids fuel (drop n buf) (All-drop IsByte n buf h) in
    elim (Bool-cases (b == preamble)) [
      | inr other ↦ rw (other, without_ids, frames_loop, scan) skipped
      | inl starts ↦ elim (Bool-cases (ltb (length buf) 3)) [
        | inl short ↦ rw (starts, short, without_ids, frames_loop, scan) refl
        | inr header ↦ elim (Bool-cases (ltb 1023 (length_field buf))) [
          | inl long ↦ rw (starts, header, long, without_ids, frames_loop, scan) skipped
          | inr fits ↦ elim (Bool-cases (ltb (length buf) n)) [
            | inl partial ↦ rw (starts, header, fits, partial, without_ids, frames_loop, scan) refl
            | inr whole ↦ elim (Bool-cases (is_valid_rtcm_frame (take n buf) true)) [
              | inr invalid ↦
                  rw (starts, header, fits, whole, invalid, without_ids, frames_loop, scan) skipped
              | inl valid ↦
                  let id = extract_of_valid (take n buf) true (All-take IsByte n buf h) valid in
                  rw (starts, header, fits, whole, valid, id, without_ids, frames_loop, scan)
                    (ap (λ (d : List Bytes × Bytes). (take n buf ∷ d.0, d.1)) found)
            ]
          ]
        ]
      ]
    ]

-- The older pipeline and the hub delimit the same frames in any bytes, in the same order, and keep
-- the same rest.
pub pipeline_frames-eq :
    (frame_buffer : Bytes)
    → IsBytes frame_buffer
    → pipeline_frames frame_buffer ≡ without_ids (extract_complete_rtcm_frames frame_buffer)
unfolding pipeline_frames extract_complete_rtcm_frames
pipeline_frames-eq frame_buffer h = pipeline_loop-without_ids (length frame_buffer) frame_buffer h
