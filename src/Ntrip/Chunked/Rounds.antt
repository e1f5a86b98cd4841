-- ===== src/Ntrip/Chunked/Rounds.antt =====
-- The loop of src/sp_rtk_base_relay/core/ntrip/chunked.py, round by round.
use sp_rtk_base_relay.Prelude.{ℕ, zero, suc, ◌<◌, ◌≡◌, refl, String, Bool, [], ◌∷◌, length, arith}
use sp_rtk_base_relay.Rtcm.{Bytes}
use sp_rtk_base_relay.Ntrip.Chunked.{
  ChunkedDecoder, new_decoder, breaks, raises, goes_on, round, fed, value_error, prepend, feed_loop,
}

-- A decoder between two chunks.
abbrev pub between : Bytes → ChunkedDecoder
between buffer = record new_decoder { buffer = buffer }

abbrev parts : Bytes → ℕ → Bool → Bool → ChunkedDecoder
parts buffer remaining expect_crlf finished = record {
  buffer = buffer;
  remaining = remaining;
  expect_crlf = expect_crlf;
  finished = finished;
}

module _ (fuel : ℕ) (remaining : ℕ) (expect_crlf finished : Bool) where
  step_parts :
      (buffer : Bytes) (d' : ChunkedDecoder) (out : Bytes)
      → 0 < length buffer
      → round (parts buffer remaining expect_crlf finished) ≡ goes_on out d'
      → feed_loop (suc fuel) (parts buffer remaining expect_crlf finished)
        ≡ prepend out (feed_loop fuel d')
  unfolding feed_loop
  step_parts [] d' out long e = absurd (omega arith)
  step_parts (b ∷ bytes) d' out long e = rw (e, feed_loop) refl

  breaks_parts :
      (buffer : Bytes) (d' : ChunkedDecoder)
      → 0 < length buffer
      → round (parts buffer remaining expect_crlf finished) ≡ breaks d'
      → feed_loop (suc fuel) (parts buffer remaining expect_crlf finished) ≡ fed d' []
  unfolding feed_loop
  breaks_parts [] d' long e = absurd (omega arith)
  breaks_parts (b ∷ bytes) d' long e = rw (e, feed_loop) refl

  raises_parts :
      (buffer : Bytes) (error : String)
      → 0 < length buffer
      → round (parts buffer remaining expect_crlf finished) ≡ raises error
      → feed_loop (suc fuel) (parts buffer remaining expect_crlf finished) ≡ value_error error
  unfolding feed_loop
  raises_parts [] error long e = absurd (omega arith)
  raises_parts (b ∷ bytes) error long e = rw (e, feed_loop) refl

empty_parts :
    (fuel remaining : ℕ) (expect_crlf finished : Bool) (buffer : Bytes)
    → length buffer ≡ 0
    → feed_loop fuel (parts buffer remaining expect_crlf finished)
      ≡ fed (parts buffer remaining expect_crlf finished) []
unfolding feed_loop
empty_parts zero remaining expect_crlf finished [] e = refl
empty_parts (suc fuel) remaining expect_crlf finished [] e = refl
empty_parts fuel remaining expect_crlf finished (b ∷ bytes) e = absurd (omega (arith, e))

module _ (fuel : ℕ) (d : ChunkedDecoder) where
  pub feed_step :
      (d' : ChunkedDecoder) (out : Bytes)
      → 0 < length d.buffer
      → round d ≡ goes_on out d'
      → feed_loop (suc fuel) d ≡ prepend out (feed_loop fuel d')
  feed_step d' out long e =
      step_parts fuel d.remaining d.expect_crlf d.finished d.buffer d' out long e

  pub feed_breaks :
      (d' : ChunkedDecoder)
      → 0 < length d.buffer
      → round d ≡ breaks d'
      → feed_loop (suc fuel) d ≡ fed d' []
  feed_breaks d' long e = breaks_parts fuel d.remaining d.expect_crlf d.finished d.buffer d' long e

  pub feed_raises :
      (error : String)
      → 0 < length d.buffer
      → round d ≡ raises error
      → feed_loop (suc fuel) d ≡ value_error error
  feed_raises error long e =
      raises_parts fuel d.remaining d.expect_crlf d.finished d.buffer error long e

  pub feed_empty : length d.buffer ≡ 0 → feed_loop fuel d ≡ fed d []
  feed_empty e = empty_parts fuel d.remaining d.expect_crlf d.finished d.buffer e
