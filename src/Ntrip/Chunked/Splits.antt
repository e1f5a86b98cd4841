-- ===== src/Ntrip/Chunked/Splits.antt =====
-- A body of src/sp_rtk_base_relay/core/ntrip/chunked.py in pieces and as a whole.
use sp_rtk_base_relay.Prelude.{
  ℕ, zero, suc, ◌+◌, ◌-◌, ◌≤◌, ◌<◌, ◌≡◌, refl, ◌∙◌, sym, ap, subst, ◌⊎◌, inl, inr, String, true,
  false, ◌||◌, [], ◌∷◌, ◌++◌, length, length-append, append_assoc, append-nil, take, drop,
  drop_left, take-length, arith, Bool-cases, ltb, leb, ◌==◌, if_true, if_false,
}
use sp_rtk_base_relay.Rtcm.{Bytes}
use sp_rtk_base_relay.Ntrip.Chunked.{
  ChunkedDecoder, Round, breaks, raises, goes_on, take_data, take_crlf, take_size, round, Fed, fed,
  value_error, prepend, feed_loop, feed,
}
use sp_rtk_base_relay.Ntrip.Chunked.Pieces.{
  grown, Seen, waits, ended, refused, went_on, crlf-Seen, size-Seen, data-Seen,
}
use sp_rtk_base_relay.Ntrip.Chunked.Rounds.{feed_step, feed_breaks, feed_raises, feed_empty}

module _ (d : ChunkedDecoder) where
  round_data : ltb 0 d.remaining ≡ true → round d ≡ take_data d
  unfolding round
  round_data positive = if_true (ltb 0 d.remaining) _ _ positive

  round_due : ltb 0 d.remaining ≡ false → d.expect_crlf ≡ true → round d ≡ take_crlf d d.buffer
  unfolding round
  round_due none_left due =
      if_false (ltb 0 d.remaining) _ _ none_left ∙ if_true d.expect_crlf _ _ due

  round_size : ltb 0 d.remaining ≡ false → d.expect_crlf ≡ false → round d ≡ take_size d
  unfolding round
  round_size none_left not_due =
      if_false (ltb 0 d.remaining) _ _ none_left ∙ if_false d.expect_crlf _ _ not_due

pub round-Seen :
    (d : ChunkedDecoder) (more : Bytes)
    → d.remaining ≤ length d.buffer
    → Seen d more (round d) (round (grown d more))
round-Seen d more fits = elim (Bool-cases (ltb 0 d.remaining)) [
  | inl positive ↦
      rw (round_data d positive, round_data (grown d more) positive)
        (data-Seen d more (ground (arith, positive)) fits)
  | inr none_left ↦ elim (Bool-cases d.expect_crlf) [
    | inl due ↦
        rw (round_due d none_left due, round_due (grown d more) none_left due)
          (crlf-Seen d.remaining d.expect_crlf d.finished more d.buffer)
    | inr not_due ↦
        rw (round_size d none_left not_due, round_size (grown d more) none_left not_due)
          (size-Seen d more)
  ]
]

-- A chunk with more data to come takes the whole buffer.
abbrev pub swallowed : ChunkedDecoder → ChunkedDecoder
swallowed d = record d { buffer = []; remaining = d.remaining - length d.buffer }

pub swallow_round :
    (d : ChunkedDecoder) → length d.buffer < d.remaining → round d ≡ goes_on d.buffer (swallowed d)
unfolding take_data
swallow_round d longer =
    let positive : ltb 0 d.remaining ≡ true = ground (arith, longer) in
    let taken : take d.remaining d.buffer ≡ d.buffer =
      take-length d.remaining d.buffer (omega (arith, longer)) in
    let all_gone : drop (length d.buffer) d.buffer ≡ [] =
      ap (drop (length d.buffer)) (sym (append-nil d.buffer))
      ∙ drop_left (length d.buffer) d.buffer [] refl in
    let some_left : ((d.remaining - length d.buffer) == 0) ≡ false = ground (arith, longer) in
    round_data d positive ∙ rw (taken, all_gone, some_left) refl

shorter-Seen :
    {more : Bytes} {r r' : Round} (d d' : ChunkedDecoder) (out : Bytes)
    → Seen d more r r'
    → r ≡ goes_on out d'
    → length d'.buffer < length d.buffer
shorter-Seen d d' out (waits e) h = absurd (cc (e, h))
shorter-Seen d d' out (ended e e') h = absurd (cc (e, h))
shorter-Seen d d' out (refused error e) h = absurd (cc (e, h))
shorter-Seen d d' out (went_on out1 d1 e e' shorter same) h =
    let eq : d1 ≡ d' = cc (e, h) in
    subst (λ (c : ChunkedDecoder). length c.buffer < length d.buffer) eq shorter

-- A round that goes on takes at least a byte.
round_shorter :
    (d d' : ChunkedDecoder) (out : Bytes)
    → 0 < length d.buffer
    → round d ≡ goes_on out d'
    → length d'.buffer < length d.buffer
round_shorter d d' out long e = elim (Bool-cases (leb d.remaining (length d.buffer))) [
  | inl fits ↦ shorter-Seen d d' out (round-Seen d [] (ground (arith, fits))) e
  | inr longer ↦
      let same : swallowed d ≡ d' = cc (e, swallow_round d (ground (arith, longer))) in
      omega (arith, long, ap (λ (c : ChunkedDecoder). length c.buffer) same)
]

Round-cases :
    (r : Round)
    → ((d' : ChunkedDecoder) × (r ≡ breaks d'))
      ⊎ (((error : String) × (r ≡ raises error))
          ⊎ ((out : Bytes) × (d' : ChunkedDecoder) × (r ≡ goes_on out d')))
Round-cases (breaks d') = inl (d', refl)
Round-cases (raises error) = inr (inl (error, refl))
Round-cases (goes_on out d') = inr (inr (out, d', refl))

-- Enough fuel is as good as any.
feed_loop_fuel :
    (f g : ℕ) (d : ChunkedDecoder)
    → length d.buffer ≤ f
    → length d.buffer ≤ g
    → feed_loop f d ≡ feed_loop g d
feed_loop_fuel zero g d hf hg =
    feed_empty zero d (omega (arith, hf)) ∙ sym (feed_empty g d (omega (arith, hf)))
feed_loop_fuel (suc f) zero d hf hg =
    feed_empty (suc f) d (omega (arith, hg)) ∙ sym (feed_empty zero d (omega (arith, hg)))
feed_loop_fuel (suc f) (suc g) d hf hg = elim (Bool-cases (ltb 0 (length d.buffer))) [
  | inr nothing ↦
      feed_empty (suc f) d (ground (arith, nothing))
      ∙ sym (feed_empty (suc g) d (ground (arith, nothing)))
  | inl something ↦
      let long : 0 < length d.buffer = ground (arith, something) in
      elim (Round-cases (round d)) [
        | inl (d', e) ↦ feed_breaks f d d' long e ∙ sym (feed_breaks g d d' long e)
        | inr (inl (error, e)) ↦ feed_raises f d error long e ∙ sym (feed_raises g d error long e)
        | inr (inr (out, d', e)) ↦
            let shorter = round_shorter d d' out long e in
            feed_step f d d' out long e
            ∙ ap (prepend out)
                (feed_loop_fuel f g d' (omega (arith, shorter, hf)) (omega (arith, shorter, hg)))
            ∙ sym (feed_step g d d' out long e)
      ]
]

pub prepend-append : (a b : Bytes) (r : Fed) → prepend (a ++ b) r ≡ prepend a (prepend b r)
unfolding prepend
prepend-append a b (fed d bytes) = ap (fed d) (append_assoc a b bytes)
prepend-append a b (value_error e) = refl

-- What is fed on is split into what a round gives and what follows it.
pub prepend-fed :
    (out bytes : Bytes) (r : Fed) (d : ChunkedDecoder)
    → prepend out r ≡ fed d bytes
    → (rest : Bytes) × (r ≡ fed d rest) × (bytes ≡ out ++ rest)
unfolding prepend
prepend-fed out bytes (value_error e) d h = absurd (cc h)
prepend-fed out bytes (fed d' rest) d h = (rest, cc h, cc h)

-- The loop on all of the buffer.
abbrev pub run : ChunkedDecoder → Fed
run d = feed_loop (length d.buffer) d

pub feed-open :
    (d : ChunkedDecoder) (more : Bytes) → d.finished ≡ false → feed d more ≡ run (grown d more)
unfolding feed
feed-open d more e = if_false d.finished _ _ e

pub feed-finished : (d : ChunkedDecoder) (more : Bytes) → d.finished ≡ true → feed d more ≡ fed d []
unfolding feed
feed-finished d more e = if_true d.finished _ _ e

take_over :
    (n : ℕ) (xs ys : Bytes) → length xs ≤ n → take n (xs ++ ys) ≡ xs ++ take (n - length xs) ys
take_over n [] ys h = ap (λ k. take k ys) (omega arith)
take_over zero (x ∷ xs) ys h = absurd (omega arith)
take_over (suc n) (x ∷ xs) ys h =
    let fewer : suc n - length (x ∷ xs) ≡ n - length xs = omega arith in
    ap (λ l. x ∷ l) (take_over n xs ys (omega arith) ∙ ap (λ k. xs ++ take k ys) (sym fewer))

drop_over : (k n : ℕ) (xs ys : Bytes) → n ≡ length xs + k → drop n (xs ++ ys) ≡ drop k ys
drop_over k n [] ys h = ap (λ j. drop j ys) (omega (arith, h))
drop_over k zero (x ∷ xs) ys h = absurd (omega (arith, h))
drop_over k (suc n) (x ∷ xs) ys h = drop_over k n xs ys (omega (arith, h))

-- The round on the grown buffer gives what is there and then what the round on the rest gives.
swallowed-data :
    (d : ChunkedDecoder) (more : Bytes)
    → length d.buffer < d.remaining
    → (out : Bytes) × (d'' : ChunkedDecoder) × (take_data (grown d more)
        ≡ goes_on (d.buffer ++ out) d'')
      × (take_data (grown (swallowed d) more) ≡ goes_on out d'')
unfolding take_data
swallowed-data d more longer =
    let left : ℕ = d.remaining - length d.buffer in
    let out : Bytes = take left more in
    let taken : take d.remaining (d.buffer ++ more) ≡ d.buffer ++ out =
      take_over d.remaining d.buffer more (omega (arith, longer)) in
    let dropped : drop (length (d.buffer ++ out)) (d.buffer ++ more) ≡ drop (length out) more =
      drop_over (length out) (length (d.buffer ++ out)) d.buffer more
        (length-append d.buffer out) in
    let fewer : d.remaining - length (d.buffer ++ out) ≡ left - length out =
      omega (arith, length-append d.buffer out) in
    (
      out,
      record d {
        buffer = drop (length out) more;
        remaining = left - length out;
        expect_crlf = left - length out == 0 || d.expect_crlf;
      },
      rw (taken, dropped, fewer) refl,
      refl,
    )

-- More fuel than the buffer needs.
pub run_fuel : (d : ChunkedDecoder) (fuel : ℕ) → length d.buffer ≤ fuel → run d ≡ feed_loop fuel d
run_fuel d fuel h = feed_loop_fuel (length d.buffer) fuel d (omega arith) h

-- A chunk whose data goes on behind the buffer: its first part is taken whole.
pub swallowed-append :
    (d : ChunkedDecoder) (more : Bytes)
    → length d.buffer < d.remaining
    → 0 < length d.buffer
    → run (grown d more) ≡ prepend d.buffer (run (grown (swallowed d) more))
swallowed-append d [] longer long =
    ap (λ l. run (record d { buffer = l })) (append-nil d.buffer)
    ∙ run_fuel d (suc (length d.buffer)) (omega arith)
    ∙ feed_step (length d.buffer) d (swallowed d) d.buffer long (swallow_round d longer)
    ∙ ap (prepend d.buffer)
        (feed_empty (length d.buffer) (swallowed d) refl ∙ sym (feed_empty 0 (swallowed d) refl))
swallowed-append d (c ∷ cs) longer long =
    let more : Bytes = c ∷ cs in
    let (out, d'', whole, part) = swallowed-data d more longer in
    let fuel : ℕ = length (d.buffer ++ more) in
    let all : ltb 0 d.remaining ≡ true = ground (arith, longer) in
    let some_left : ltb 0 (d.remaining - length d.buffer) ≡ true = ground (arith, longer) in
    run_fuel (grown d more) (suc fuel) (omega arith)
    ∙ feed_step fuel (grown d more) d'' (d.buffer ++ out)
        (omega (arith, length-append d.buffer more)) (round_data (grown d more) all ∙ whole)
    ∙ prepend-append d.buffer out (feed_loop fuel d'')
    ∙ ap (prepend d.buffer) (
        sym (
          run_fuel (grown (swallowed d) more) (suc fuel)
            (omega (arith, length-append d.buffer more))
          ∙ feed_step fuel (grown (swallowed d) more) d'' out (omega arith)
              (round_data (grown (swallowed d) more) some_left ∙ part)))
