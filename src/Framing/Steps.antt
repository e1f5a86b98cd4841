-- ===== src/Framing/Steps.antt =====
-- One round of the delimiting loop of src/sp_rtk_base_relay/core/broadcast_hub.py, and the loop as
-- equations without fuel.
use sp_rtk_base_relay.Prelude.{
  ℕ, zero, suc, ◌≤◌, ◌<◌, ◌≡◌, ◌≢◌, refl, ap, true, [], ◌∷◌, ◌++◌, arith, length, take, drop,
  length-drop, length-append, take-append,
}
use sp_rtk_base_relay.Rtcm.{Bytes, expected_frame_length, is_valid_rtcm_frame, extract_message_id}
use sp_rtk_base_relay.Rtcm.Fields.{length_field-append}
use sp_rtk_base_relay.Framing.{
  Scan, skip, wait, emit, scan, prepend, found_frame, frames_loop, extract_complete_rtcm_frames,
}

-- A round that does not wait has seen all that it decides by.
pub scan-append :
    (b : ℕ) (rest more : Bytes) → scan (b ∷ rest) ≢ wait → scan (b ∷ rest ++ more) ≡ scan (b ∷ rest)
unfolding scan
scan-append b rest more h = ground (
  arith,
  length-append (b ∷ rest) more,
  length_field-append (b ∷ rest) more,
  take-append (expected_frame_length (b ∷ rest)) (b ∷ rest) more,
)

-- What a round that takes a frame has tested.
pub scan-emit :
    (buf : Bytes) (n : ℕ)
    → scan buf ≡ emit n
    → (n ≡ expected_frame_length buf)
      × (n ≤ length buf)
      × (is_valid_rtcm_frame (take n buf) true ≡ true)
unfolding scan
scan-emit buf n h = ground arith

-- A frame takes six bytes at least.
pub dropped_lt :
    (b : ℕ) (rest : Bytes) (n : ℕ)
    → scan (b ∷ rest) ≡ emit n
    → length (drop n (b ∷ rest)) ≤ length rest
dropped_lt b rest n h = omega (arith, length-drop n (b ∷ rest), (scan-emit (b ∷ rest) n h).0)

-- Enough fuel is as good as any.
frames_loop_fuel :
    (f g : ℕ) (buf : Bytes)
    → length buf ≤ f
    → length buf ≤ g
    → frames_loop f buf ≡ frames_loop g buf
unfolding frames_loop
frames_loop_fuel zero zero buf hf hg = refl
frames_loop_fuel zero (suc g) [] hf hg = refl
frames_loop_fuel zero (suc g) (b ∷ rest) hf hg = absurd (omega arith)
frames_loop_fuel (suc f) zero [] hf hg = refl
frames_loop_fuel (suc f) zero (b ∷ rest) hf hg = absurd (omega arith)
frames_loop_fuel (suc f) (suc g) [] hf hg = refl
frames_loop_fuel (suc f) (suc g) (b ∷ rest) hf hg =
    go (scan (b ∷ rest)) refl (λ buf h. frames_loop_fuel f g buf (omega arith) (omega arith))
  where
    go :
        (s : Scan)
        → scan (b ∷ rest) ≡ s
        → ((buf : Bytes) → length buf ≤ length rest → frames_loop f buf ≡ frames_loop g buf)
        → frames_loop (suc f) (b ∷ rest) ≡ frames_loop (suc g) (b ∷ rest)
    go skip e ih = rw (e, frames_loop) (ih rest (omega arith))
    go wait e ih = rw (e, frames_loop)
    go (emit n) e ih =
        let frame = take n (b ∷ rest) in
        rw (e, frames_loop)
          (ap (prepend (found_frame (extract_message_id frame true) frame))
            (ih (drop n (b ∷ rest)) (dropped_lt b rest n e)))

pub extract-nil : extract_complete_rtcm_frames [] ≡ ([], [])
unfolding extract_complete_rtcm_frames frames_loop
extract-nil = refl

-- The loop, round by round.
pub extract-skip :
    (b : ℕ) (rest : Bytes)
    → scan (b ∷ rest) ≡ skip
    → extract_complete_rtcm_frames (b ∷ rest) ≡ extract_complete_rtcm_frames rest
unfolding extract_complete_rtcm_frames frames_loop
extract-skip b rest h = rw (h, frames_loop)

pub extract-wait :
    (b : ℕ) (rest : Bytes)
    → scan (b ∷ rest) ≡ wait
    → extract_complete_rtcm_frames (b ∷ rest) ≡ ([], b ∷ rest)
unfolding extract_complete_rtcm_frames frames_loop
extract-wait b rest h = rw (h, frames_loop)

pub extract-emit :
    (b : ℕ) (rest : Bytes) (n : ℕ)
    → scan (b ∷ rest) ≡ emit n
    → extract_complete_rtcm_frames (b ∷ rest)
      ≡ prepend
          (found_frame (extract_message_id (take n (b ∷ rest)) true) (take n (b ∷ rest)))
          (extract_complete_rtcm_frames (drop n (b ∷ rest)))
unfolding extract_complete_rtcm_frames frames_loop
extract-emit b rest n h =
    rw (h, frames_loop)
      (ap (prepend _) (
        frames_loop_fuel (length rest) (length (drop n (b ∷ rest))) (drop n (b ∷ rest))
          (dropped_lt b rest n h) (omega arith)))

pub extract-frame :
    (buf : Bytes) (n : ℕ)
    → 0 < length buf
    → scan buf ≡ emit n
    → extract_complete_rtcm_frames buf
      ≡ prepend
          (found_frame (extract_message_id (take n buf) true) (take n buf))
          (extract_complete_rtcm_frames (drop n buf))
extract-frame [] n long h = absurd (omega arith)
extract-frame (b ∷ rest) n long h = extract-emit b rest n h
