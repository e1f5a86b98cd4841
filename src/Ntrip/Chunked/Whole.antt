-- ===== src/Ntrip/Chunked/Whole.antt =====
-- Feeding a body of src/sp_rtk_base_relay/core/ntrip/chunked.py in two pieces and at once.
use sp_rtk_base_relay.Prelude.{
  ℕ, zero, suc, ◌≤◌, ◌<◌, ◌≡◌, refl, ◌∙◌, sym, ap, ap₂, inl, inr, true, false, [], ◌++◌, length,
  length-append, append_assoc, append-nil, arith, Bool-cases, ltb, leb,
}
use sp_rtk_base_relay.Rtcm.{Bytes}
use sp_rtk_base_relay.Ntrip.Chunked.{
  ChunkedDecoder, breaks, goes_on, round, fed, prepend, feed_loop, feed,
}
use sp_rtk_base_relay.Ntrip.Chunked.Pieces.{grown, waits, ended, refused, went_on}
use sp_rtk_base_relay.Ntrip.Chunked.Rounds.{feed_step, feed_breaks, feed_raises, feed_empty}
use sp_rtk_base_relay.Ntrip.Chunked.RoundTrip.{prepend-nil}
use sp_rtk_base_relay.Ntrip.Chunked.Splits.{
  run, run_fuel, round-Seen, swallowed, swallow_round, swallowed-append, feed-open, feed-finished,
  prepend-append, prepend-fed,
}

-- A decoder that did nothing yet goes on as if it had not been asked.
waiting_case :
    (d : ChunkedDecoder) (more : Bytes) (d' : ChunkedDecoder) (out : Bytes)
    → d.finished ≡ false
    → fed d [] ≡ fed d' out
    → run (grown d more) ≡ prepend out (feed d' more)
waiting_case d more d' out on h =
    let same : d ≡ d' = cc h in
    let none_out : ◌≡◌ {A = Bytes} [] out = cc h in
    sym (feed-open d more on)
    ∙ sym (prepend-nil (feed d more))
    ∙ ap₂ (λ o c. prepend o (feed c more)) none_out same

module _ (d : ChunkedDecoder) (more : Bytes) where
  ended_case :
      (e d' : ChunkedDecoder) (out : Bytes)
      → 0 < length d.buffer
      → e.finished ≡ true
      → round (grown d more) ≡ breaks e
      → fed e [] ≡ fed d' out
      → run (grown d more) ≡ prepend out (feed d' more)
  ended_case e d' out long over seen h =
      let same : e ≡ d' = cc h in
      let none_out : ◌≡◌ {A = Bytes} [] out = cc h in
      let fuel : ℕ = length (d.buffer ++ more) in
      run_fuel (grown d more) (suc fuel) (omega arith)
      ∙ feed_breaks fuel (grown d more) e (omega (arith, length-append d.buffer more)) seen
      ∙ sym (feed-finished e more over)
      ∙ sym (prepend-nil (feed e more))
      ∙ ap₂ (λ o c. prepend o (feed c more)) none_out same

  next_case :
      (out1 rest out : Bytes) (d1 d' : ChunkedDecoder)
      → 0 < length d.buffer
      → length d1.buffer < length d.buffer
      → round (grown d more) ≡ goes_on out1 (grown d1 more)
      → out ≡ out1 ++ rest
      → run (grown d1 more) ≡ prepend rest (feed d' more)
      → run (grown d more) ≡ prepend out (feed d' more)
  next_case out1 rest out d1 d' long shorter seen whole ih =
      let fuel : ℕ = length (d.buffer ++ more) in
      run_fuel (grown d more) (suc fuel) (omega arith)
      ∙ feed_step fuel (grown d more) (grown d1 more) out1
          (omega (arith, length-append d.buffer more)) seen
      ∙ ap (prepend out1) (
          sym (
            run_fuel (grown d1 more) fuel
              (omega (arith, shorter, length-append d.buffer more, length-append d1.buffer more)))
          ∙ ih)
      ∙ sym (prepend-append out1 rest (feed d' more))
      ∙ ap (λ o. prepend o (feed d' more)) (sym whole)

  swallowed_case :
      (out : Bytes) (d' : ChunkedDecoder)
      → d.finished ≡ false
      → 0 < length d.buffer
      → length d.buffer < d.remaining
      → prepend d.buffer (fed (swallowed d) []) ≡ fed d' out
      → run (grown d more) ≡ prepend out (feed d' more)
  unfolding prepend
  swallowed_case out d' on long longer h =
      let same : swallowed d ≡ d' = cc h in
      let whole : d.buffer ++ [] ≡ out = cc h in
      swallowed-append d more longer long
      ∙ ap (prepend d.buffer) (sym (feed-open (swallowed d) more on))
      ∙ ap₂ (λ o c. prepend o (feed c more)) (sym (append-nil d.buffer) ∙ whole) same

feed_loop-append :
    (f : ℕ) (d : ChunkedDecoder) (more : Bytes) (d' : ChunkedDecoder) (out : Bytes)
    → length d.buffer ≤ f
    → d.finished ≡ false
    → feed_loop f d ≡ fed d' out
    → run (grown d more) ≡ prepend out (feed d' more)
feed_loop-append zero d more d' out hf on h =
    waiting_case d more d' out on (sym (feed_empty zero d (omega (arith, hf))) ∙ h)
feed_loop-append (suc f) d more d' out hf on h = elim (Bool-cases (ltb 0 (length d.buffer))) [
  | inr nothing ↦
      waiting_case d more d' out on (sym (feed_empty (suc f) d (ground (arith, nothing))) ∙ h)
  | inl something ↦
      let long : 0 < length d.buffer = ground (arith, something) in
      elim (Bool-cases (leb d.remaining (length d.buffer))) [
        | inr over ↦
            let longer : length d.buffer < d.remaining = ground (arith, over) in
            swallowed_case d more out d' on long longer (
              ap (prepend d.buffer) (sym (feed_empty f (swallowed d) refl))
              ∙ sym (feed_step f d (swallowed d) d.buffer long (swallow_round d longer))
              ∙ h)
        | inl fits ↦ elim (round-Seen d more (ground (arith, fits))) [
          | waits e ↦ waiting_case d more d' out on (sym (feed_breaks f d d long e) ∙ h)
          | ended e e' ↦
              ended_case d more _ d' out long refl e' (sym (feed_breaks f d _ long e) ∙ h)
          | refused error e ↦ absurd (cc (h, feed_raises f d error long e))
          | went_on out1 d1 e e' shorter same ↦
              let (rest, fed_on, whole) =
                prepend-fed out1 out (feed_loop f d1) d' (sym (feed_step f d d1 out1 long e) ∙ h) in
              next_case d more out1 rest out d1 d' long shorter e' whole
                (feed_loop-append f d1 more d' rest (omega (arith, shorter, hf)) (same ∙ on) fed_on)
        ]
      ]
]

-- A body may come in any pieces: if feeding a first piece raises nothing, then feeding it together
-- with what follows gives what it gave, and then what feeding the rest to the decoder that it left
-- gives, be it bytes or an error.
pub feed-append :
    (d d' : ChunkedDecoder) (piece more out : Bytes)
    → feed d piece ≡ fed d' out
    → feed d (piece ++ more) ≡ prepend out (feed d' more)
feed-append d d' piece more out h = elim (Bool-cases d.finished) [
  | inl over ↦
      let e : fed d [] ≡ fed d' out = sym (feed-finished d piece over) ∙ h in
      let same : d ≡ d' = cc e in
      let none_out : ◌≡◌ {A = Bytes} [] out = cc e in
      feed-finished d (piece ++ more) over
      ∙ sym (feed-finished d more over)
      ∙ sym (prepend-nil (feed d more))
      ∙ ap₂ (λ o c. prepend o (feed c more)) none_out same
  | inr on ↦
      feed-open d (piece ++ more) on
      ∙ ap (λ l. run (record d { buffer = l })) (sym (append_assoc d.buffer piece more))
      ∙ feed_loop-append (length (d.buffer ++ piece)) (grown d piece) more d' out (omega arith) on
          (sym (feed-open d piece on) ∙ h)
]
