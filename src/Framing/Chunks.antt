-- ===== src/Framing/Chunks.antt =====
-- How the bytes are cut into chunks makes no difference to the frames that
-- src/sp_rtk_base_relay/core/broadcast_hub.py delimits.
use sp_rtk_base_relay.Prelude.{
  ℕ, zero, suc, ◌≤◌, ◌≡◌, refl, ◌∙◌, ap, sym, true, List, [], ◌∷◌, ◌++◌, arith, length, take, drop,
  take-append, drop-append, append_assoc, append-nil,
}
use mathlib.Core.List.{flatten}
use sp_rtk_base_relay.Rtcm.{Bytes, extract_message_id}
use sp_rtk_base_relay.Framing.{
  Scan, skip, wait, emit, scan, Parsed, Delimited, prepend, found_frame,
  extract_complete_rtcm_frames, parse_frames, parse_chunks,
}
use sp_rtk_base_relay.Framing.Steps.{
  scan-append, scan-emit, dropped_lt, extract-nil, extract-skip, extract-wait, extract-emit,
}

prepend_assoc :
    (xs ys : List Parsed) (d : Delimited) → prepend xs (prepend ys d) ≡ prepend (xs ++ ys) d
prepend_assoc xs ys (more, left) = ap (λ l. (l, left)) (sym (append_assoc xs ys more))

-- Delimiting `buf`, and then what it leaves with more bytes behind it.
abbrev resume : Delimited → Bytes → Delimited
resume (found, left) more = prepend found (extract_complete_rtcm_frames (left ++ more))

extract-append_below :
    (k : ℕ) (buf more : Bytes)
    → length buf ≤ k
    → extract_complete_rtcm_frames (buf ++ more) ≡ resume (extract_complete_rtcm_frames buf) more
extract-append_below k [] more h = rw extract-nil
extract-append_below zero (b ∷ rest) more h = absurd (omega arith)
extract-append_below (suc k) (b ∷ rest) more h =
    go (scan (b ∷ rest)) refl (λ buf hb. extract-append_below k buf more (omega arith))
  where
    go :
        (s : Scan)
        → scan (b ∷ rest) ≡ s
        → ((buf : Bytes)
            → length buf ≤ length rest
            → extract_complete_rtcm_frames (buf ++ more)
              ≡ resume (extract_complete_rtcm_frames buf) more)
        → extract_complete_rtcm_frames (b ∷ rest ++ more)
          ≡ resume (extract_complete_rtcm_frames (b ∷ rest)) more
    go skip e ih =
        extract-skip b (rest ++ more) (scan-append b rest more (λ w. cc) ∙ e)
        ∙ ih rest (omega arith)
        ∙ ap (λ d. resume d more) (sym (extract-skip b rest e))
    go wait e ih = rw (extract-wait b rest e)
    go (emit n) e ih =
        let buf = b ∷ rest in
        let left = drop n buf in
        let found = found_frame (extract_message_id (take n buf) true) (take n buf) in
        let fits = (scan-emit buf n e).1 in
        let later = extract-emit b (rest ++ more) n (scan-append b rest more (λ w. cc) ∙ e) in
        let later' : extract_complete_rtcm_frames (buf ++ more)
            ≡ prepend found (extract_complete_rtcm_frames (left ++ more)) =
          rw (take-append n buf more fits, drop-append n buf more fits) at later in
        later'
        ∙ ap (prepend found) (ih left (dropped_lt b rest n e))
        ∙ prepend_assoc found (extract_complete_rtcm_frames left).0
            (extract_complete_rtcm_frames ((extract_complete_rtcm_frames left).1 ++ more))
        ∙ ap (λ d. resume d more) (sym (extract-emit b rest n e))

-- More bytes in the buffer change nothing of what was found before them.
pub extract-append :
    (buf more : Bytes)
    → extract_complete_rtcm_frames (buf ++ more) ≡ resume (extract_complete_rtcm_frames buf) more
extract-append buf more = extract-append_below (length buf) buf more (omega arith)

-- What one call keeps has no frame in it, and the next call finds none there.
extract_settled_below :
    (k : ℕ) (buf : Bytes)
    → length buf ≤ k
    → extract_complete_rtcm_frames (extract_complete_rtcm_frames buf).1
      ≡ ([], (extract_complete_rtcm_frames buf).1)
extract_settled_below k [] h = rw (extract-nil, extract-nil)
extract_settled_below zero (b ∷ rest) h = absurd (omega arith)
extract_settled_below (suc k) (b ∷ rest) h =
    go (scan (b ∷ rest)) refl (λ buf hb. extract_settled_below k buf (omega arith))
  where
    go :
        (s : Scan)
        → scan (b ∷ rest) ≡ s
        → ((buf : Bytes)
            → length buf ≤ length rest
            → extract_complete_rtcm_frames (extract_complete_rtcm_frames buf).1
              ≡ ([], (extract_complete_rtcm_frames buf).1))
        → extract_complete_rtcm_frames (extract_complete_rtcm_frames (b ∷ rest)).1
          ≡ ([], (extract_complete_rtcm_frames (b ∷ rest)).1)
    go skip e ih = rw (extract-skip b rest e) (ih rest (omega arith))
    go wait e ih = rw (extract-wait b rest e) (extract-wait b rest e)
    go (emit n) e ih = rw (extract-emit b rest n e) (ih (drop n (b ∷ rest)) (dropped_lt b rest n e))

pub extract_settled :
    (buf : Bytes)
    → extract_complete_rtcm_frames (extract_complete_rtcm_frames buf).1
      ≡ ([], (extract_complete_rtcm_frames buf).1)
extract_settled buf = extract_settled_below (length buf) buf (omega arith)

-- Any cutting of the bytes into chunks: from what an earlier call kept, the calls for the chunks
-- find together, in order, the frames that one call finds in all the bytes at once, and leave the
-- same bytes in the buffer.
pub parse_chunks-flatten :
    (earlier : Bytes) (chunks : List Bytes)
    → parse_chunks (extract_complete_rtcm_frames earlier).1 chunks
      ≡ parse_frames (extract_complete_rtcm_frames earlier).1 (flatten chunks)
unfolding parse_chunks parse_frames flatten
parse_chunks-flatten earlier [] = sym (rw append-nil (extract_settled earlier))
parse_chunks-flatten earlier (chunk ∷ chunks) =
    let left = (extract_complete_rtcm_frames earlier).1 in
    let (found, left') = extract_complete_rtcm_frames (left ++ chunk) in
    ap (prepend found) (parse_chunks-flatten (left ++ chunk) chunks)
    ∙ sym (extract-append (left ++ chunk) (flatten chunks))
    ∙ ap extract_complete_rtcm_frames (append_assoc left chunk (flatten chunks))

pub parsed_first :
    (buffer chunk : Bytes) (chunks : List Bytes)
    → let (found, left) = parse_frames buffer chunk in
      (parse_chunks buffer (chunk ∷ chunks)).0 ≡ found ++ (parse_chunks left chunks).0
unfolding parse_chunks
parsed_first buffer chunk chunks = refl

pub parse_chunks-nil : (buffer : Bytes) → (parse_chunks buffer []).0 ≡ []
unfolding parse_chunks
parse_chunks-nil buffer = refl
