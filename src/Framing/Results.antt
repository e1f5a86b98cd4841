-- ===== src/Framing/Results.antt =====
-- What src/sp_rtk_base_relay/core/broadcast_hub.py delimits, for any bytes at all.
use sp_rtk_base_relay.Prelude.{
  ℕ, zero, suc, ◌+◌, ◌≤◌, ◌≡◌, refl, true, List, [], ◌∷◌, arith, All, All-take, All-drop, length,
  length-take, length-drop, take, drop, some,
}
use sp_rtk_base_relay.Rtcm.{Bytes, IsByte, IsBytes, extract_message_id, is_valid_rtcm_frame}
use sp_rtk_base_relay.Rtcm.Fields.{length_field_lem, extract_of_valid}
use sp_rtk_base_relay.Framing.{
  Scan, scan, skip, wait, emit, Parsed, Delimited, extract_complete_rtcm_frames,
}
use sp_rtk_base_relay.Framing.Steps.{
  scan-emit, dropped_lt, extract-nil, extract-skip, extract-wait, extract-emit,
}

-- A valid frame beside its message number.
abbrev pub IsFrame : Parsed → Type 0
IsFrame (msg_id, frame) =
    (is_valid_rtcm_frame frame true ≡ true) × (extract_message_id frame true ≡ some msg_id)

abbrev pub total : List Parsed → ℕ
total [] = 0
total ((msg_id, frame) ∷ found) = length frame + total found

-- The frames found in `buf`, and what is kept of it.
pub record IsSound (buf : Bytes) (d : Delimited) : Type 0 where
  pub frames : All IsFrame d.0
  pub kept : length d.1 ≤ 1028
  pub within : total d.0 + length d.1 ≤ length buf

scan-wait : (buf : Bytes) → IsBytes buf → scan buf ≡ wait → length buf ≤ 1028
unfolding scan
scan-wait buf h e = ground (arith, length_field_lem buf h)

emit-IsSound :
    (b : ℕ) (rest : Bytes) (n : ℕ)
    → IsBytes (b ∷ rest)
    → scan (b ∷ rest) ≡ emit n
    → IsSound (drop n (b ∷ rest)) (extract_complete_rtcm_frames (drop n (b ∷ rest)))
    → IsSound (b ∷ rest) (extract_complete_rtcm_frames (b ∷ rest))
emit-IsSound b rest n h e s =
    let buf = b ∷ rest in
    let frame = take n buf in
    let fits = scan-emit buf n e in
    let id = extract_of_valid frame true (All-take IsByte n buf h) fits.2 in
    rw (extract-emit b rest n e, id)
      (record {
        frames = ((fits.2, id), s.frames);
        kept = s.kept;
        within = omega (arith, s.within, length-take n buf, length-drop n buf, fits.1);
      })

extract-IsSound_below :
    (k : ℕ) (buf : Bytes)
    → length buf ≤ k
    → IsBytes buf
    → IsSound buf (extract_complete_rtcm_frames buf)
extract-IsSound_below k [] hk h =
    rw extract-nil (record { frames = tt; kept = omega arith; within = omega arith })
extract-IsSound_below zero (b ∷ rest) hk h = absurd (omega arith)
extract-IsSound_below (suc k) (b ∷ rest) hk h =
    go (scan (b ∷ rest)) refl (λ buf hb hs. extract-IsSound_below k buf (omega arith) hs)
  where
    go :
        (s : Scan)
        → scan (b ∷ rest) ≡ s
        → ((buf : Bytes)
            → length buf ≤ length rest
            → IsBytes buf
            → IsSound buf (extract_complete_rtcm_frames buf))
        → IsSound (b ∷ rest) (extract_complete_rtcm_frames (b ∷ rest))
    go skip e ih =
        let s = ih rest (omega arith) h.1 in
        rw (extract-skip b rest e)
          (record { frames = s.frames; kept = s.kept; within = omega (arith, s.within) })
    go wait e ih =
        rw (extract-wait b rest e)
          (record { frames = tt; kept = scan-wait (b ∷ rest) h e; within = omega arith })
    go (emit n) e ih =
        emit-IsSound b rest n h e
          (ih (drop n (b ∷ rest)) (dropped_lt b rest n e) (All-drop IsByte n (b ∷ rest) h))

-- In any buffer of bytes, every item that the hub delimits is a frame that passes the CRC, beside
-- the message number that the decoder reads from it; at most 1028 bytes are kept for the next
-- call; and the frames and the kept bytes together are no longer than the buffer.
pub extract-IsSound : (buf : Bytes) → IsBytes buf → IsSound buf (extract_complete_rtcm_frames buf)
extract-IsSound buf h = extract-IsSound_below (length buf) buf (omega arith) h
