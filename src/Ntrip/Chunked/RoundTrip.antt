-- ===== src/Ntrip/Chunked/RoundTrip.antt =====
-- What src/sp_rtk_base_relay/core/destinations/ntrip_destination.py sends as chunks,
-- src/sp_rtk_base_relay/core/ntrip/chunked.py decodes.
use sp_rtk_base_relay.Prelude.{
  ℕ, zero, suc, ◌*◌, ◌-◌, ◌≤◌, ◌<◌, ◌≡◌, refl, ◌∙◌, ap, subst, String, true, false, some, List, [],
  ◌∷◌, ◌++◌, length, length-append, append_assoc, take_left, drop_left, All, arith, ltb,
}
use sp_rtk_base_relay.Prelude.Text.{same_text}
use sp_rtk_base_relay.Rtcm.{Bytes}
use sp_rtk_base_relay.Ntrip.Chunked.{
  ChunkedDecoder, new_decoder, goes_on, take_data, take_crlf, take_size, start_chunk, round, Fed,
  fed, value_error, prepend, feed_loop, feed, hex, hex_int, size_field, partition_line, payload_of,
}
use sp_rtk_base_relay.Ntrip.Chunked.Rounds.{between, feed_step}
use sp_rtk_base_relay.Ntrip.Chunked.Digits.{hex_long, hex_int-hex, size_field-hex, partition-hex}

-- The messages, each sent by a _send_data() of its own.
unfoldable pub send_all : String → List Bytes → Bytes
send_all version [] = []
send_all version (m ∷ ms) = payload_of version m ++ send_all version ms

unfoldable pub concat : List Bytes → Bytes
concat [] = []
concat (m ∷ ms) = m ++ concat ms

take_size_line :
    (line rest : Bytes) (buffer : Bytes)
    → partition_line buffer ≡ some (line, rest)
    → take_size (between buffer) ≡ start_chunk (between buffer) rest (hex_int (size_field line))
unfolding take_size
take_size_line line rest buffer e = rw (e, take_size) refl

size_round :
    (k : ℕ) (tail : Bytes)
    → round (between (hex (suc k) ++ 13 ∷ 10 ∷ tail))
      ≡ goes_on [] (record new_decoder { buffer = tail; remaining = suc k })
unfolding round start_chunk
size_round k tail =
    let buffer : Bytes = hex (suc k) ++ 13 ∷ 10 ∷ tail in
    take_size_line (hex (suc k) ++ 13 ∷ []) tail buffer (partition-hex (suc k) tail)
    ∙ ap (λ l. start_chunk (between buffer) tail (hex_int l)) (size_field-hex (suc k))
    ∙ ap (start_chunk (between buffer) tail) (hex_int-hex (suc k))

data_round :
    (m tail : Bytes)
    → 0 < length m
    → round (record new_decoder { buffer = m ++ tail; remaining = length m })
      ≡ goes_on m (record new_decoder { buffer = tail; expect_crlf = true })
unfolding round take_data
data_round m tail long =
    let positive : ltb 0 (length m) ≡ true = ground (arith, long) in
    let none_left : length m - length m ≡ 0 = omega arith in
    rw (positive, take_left (length m) m tail refl, drop_left (length m) m tail refl, none_left)
      refl

crlf_round :
    (tail : Bytes)
    → round (record new_decoder { buffer = 13 ∷ 10 ∷ tail; expect_crlf = true })
      ≡ goes_on [] (between tail)
unfolding round take_crlf
crlf_round tail = refl

pub prepend-nil : (r : Fed) → prepend [] r ≡ r
unfolding prepend
prepend-nil (fed d bytes) = refl
prepend-nil (value_error e) = refl

chunk_lem :
    (fuel k : ℕ) (m tail : Bytes)
    → length m ≡ suc k
    → feed_loop (suc (suc (suc fuel))) (between (hex (suc k) ++ 13 ∷ 10 ∷ (m ++ 13 ∷ 10 ∷ tail)))
      ≡ prepend m (feed_loop fuel (between tail))
chunk_lem fuel k m tail same =
    let after : Bytes = m ++ 13 ∷ 10 ∷ tail in
    let sized : ChunkedDecoder = record new_decoder { buffer = after; remaining = suc k } in
    let ended : ChunkedDecoder = record new_decoder {
      buffer = 13 ∷ 10 ∷ tail;
      expect_crlf = true;
    } in
    let data_read : round sized ≡ goes_on m ended =
      subst (λ n. round (record new_decoder { buffer = after; remaining = n }) ≡ goes_on m ended)
        same (data_round m (13 ∷ 10 ∷ tail) (omega arith)) in
    feed_step (suc (suc fuel)) (between (hex (suc k) ++ 13 ∷ 10 ∷ after)) sized []
      (omega (arith, hex_long (suc k), length-append (hex (suc k)) (13 ∷ 10 ∷ after)))
      (size_round k after)
    ∙ prepend-nil (feed_loop (suc (suc fuel)) sized)
    ∙ feed_step (suc fuel) sized ended m (omega (arith, same, length-append m (13 ∷ 10 ∷ tail)))
        data_read
    ∙ ap (prepend m) (feed_step fuel ended (between tail) [] (omega arith) (crlf_round tail))
    ∙ ap (prepend m) (prepend-nil (feed_loop fuel (between tail)))

module _ (version : String) (chunked : same_text version "1.0" ≡ false) where
  payload_parts :
      (m : Bytes) → payload_of version m ≡ hex (length m) ++ 13 ∷ 10 ∷ (m ++ 13 ∷ 10 ∷ [])
  unfolding payload_of
  payload_parts m = simp chunked refl

  payload_lem :
      (m tail : Bytes)
      → payload_of version m ++ tail ≡ hex (length m) ++ 13 ∷ 10 ∷ (m ++ 13 ∷ 10 ∷ tail)
  payload_lem m tail =
      ap (λ l. l ++ tail) (payload_parts m)
      ∙ append_assoc (hex (length m)) (13 ∷ 10 ∷ (m ++ 13 ∷ 10 ∷ [])) tail
      ∙ ap (λ l. hex (length m) ++ 13 ∷ 10 ∷ l) (append_assoc m (13 ∷ 10 ∷ []) tail)

  payload_step :
      (fuel : ℕ) (m tail : Bytes)
      → 0 < length m
      → feed_loop (suc (suc (suc fuel))) (between (payload_of version m ++ tail))
        ≡ prepend m (feed_loop fuel (between tail))
  payload_step fuel [] tail long = absurd (omega arith)
  payload_step fuel (b ∷ m) tail long =
      ap (λ l. feed_loop (suc (suc (suc fuel))) (between l)) (payload_lem (b ∷ m) tail)
      ∙ chunk_lem fuel (length m) (b ∷ m) tail refl

  feed_loop-send_all :
      (fuel : ℕ) (ms : List Bytes)
      → All (λ (m : Bytes). 0 < length m) ms
      → 3 * length ms ≤ fuel
      → feed_loop fuel (between (send_all version ms)) ≡ fed new_decoder (concat ms)
  unfolding feed_loop send_all concat
  feed_loop-send_all zero [] long h = refl
  feed_loop-send_all (suc fuel) [] long h = refl
  feed_loop-send_all zero (m ∷ ms) long h = absurd (omega arith)
  feed_loop-send_all (suc zero) (m ∷ ms) long h = absurd (omega arith)
  feed_loop-send_all (suc (suc zero)) (m ∷ ms) long h = absurd (omega arith)
  feed_loop-send_all (suc (suc (suc fuel))) (m ∷ ms) long h =
      payload_step fuel m (send_all version ms) long.0
      ∙ ap (prepend m) (feed_loop-send_all fuel ms long.1 (omega arith))

  length-payload : (m : Bytes) → 0 < length m → 3 ≤ length (payload_of version m)
  length-payload m long = omega (
    arith,
    ap length (payload_parts m),
    length-append (hex (length m)) (13 ∷ 10 ∷ (m ++ 13 ∷ 10 ∷ [])),
    length-append m (13 ∷ 10 ∷ []),
  )

  length-send_all :
      (ms : List Bytes)
      → All (λ (m : Bytes). 0 < length m) ms
      → 3 * length ms ≤ length (send_all version ms)
  unfolding send_all
  length-send_all [] long = omega arith
  length-send_all (m ∷ ms) long = omega (
    arith,
    length-payload m long.0,
    length-send_all ms long.1,
    length-append (payload_of version m) (send_all version ms),
  )

  -- Messages that are not empty, sent as chunks one after another, are decoded to just their bytes,
  -- in order, and the decoder is then as new.
  pub feed-send_all :
      (ms : List Bytes)
      → All (λ (m : Bytes). 0 < length m) ms
      → feed new_decoder (send_all version ms) ≡ fed new_decoder (concat ms)
  unfolding feed
  feed-send_all ms long =
      feed_loop-send_all (length (send_all version ms)) ms long (length-send_all ms long)
