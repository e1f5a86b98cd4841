-- ===== src/Ntrip/Chunked/Tests.antt =====
-- Examples of the chunked bodies of src/sp_rtk_base_relay/core/ntrip/chunked.py.
use sp_rtk_base_relay.Prelude.{◌≡◌, refl, false, some, List, [], ◌∷◌, ◌++◌, All, arith, length, ◌<◌}
use sp_rtk_base_relay.Prelude.Int.{pos, negsuc}
use sp_rtk_base_relay.Prelude.Text.{same_text}
use sp_rtk_base_relay.Rtcm.{Bytes}
use sp_rtk_base_relay.Ntrip.Chunked.{
  new_decoder, fed, feed, feed_loop, round, prepend, take_data, take_crlf, take_size, start_chunk,
  hex_int, unsigned, digits, hex_value, partition_line, size_field, strip_left, strip_right,
  before_semicolon,
}
use sp_rtk_base_relay.Ntrip.Chunked.Whole.{feed-append}
use sp_rtk_base_relay.Ntrip.Chunked.RoundTrip.{send_all, concat, feed-send_all}

abbrev two_messages : List Bytes
two_messages = (211 ∷ 0 ∷ 19 ∷ []) ∷ (10 ∷ []) ∷ []

two_messages_long : All (λ (m : Bytes). 0 < length m) two_messages
two_messages_long = (ground arith, (ground arith, tt))

not_version_1 : same_text "2.0" "1.0" ≡ false
unfolding same_text
not_version_1 = refl

feed-send_all_example :
    feed new_decoder (send_all "2.0" two_messages) ≡ fed new_decoder (211 ∷ 0 ∷ 19 ∷ 10 ∷ [])
unfolding concat
feed-send_all_example = feed-send_all "2.0" not_version_1 two_messages two_messages_long

-- "1f" and "-0x1_F"
hex_read : hex_int (49 ∷ 102 ∷ []) ≡ some (pos 31)
unfolding hex_int unsigned digits hex_value
hex_read = refl

negative_read : hex_int (45 ∷ 48 ∷ 120 ∷ 49 ∷ 95 ∷ 70 ∷ []) ≡ some (negsuc 30)
unfolding hex_int unsigned digits hex_value
negative_read = refl

-- "3" and a line end, then two bytes of the three.
abbrev started : Bytes
started = 51 ∷ 13 ∷ 10 ∷ 7 ∷ 8 ∷ []

part_read : feed new_decoder started ≡ fed (record new_decoder { remaining = 1 }) (7 ∷ 8 ∷ [])
unfolding feed feed_loop round prepend take_data take_crlf take_size start_chunk hex_int unsigned
    digits hex_value partition_line size_field strip_left strip_right before_semicolon
part_read = refl

-- The rest of the chunk, and the end of the body.
abbrev finishing : Bytes
finishing = 9 ∷ 13 ∷ 10 ∷ 48 ∷ 13 ∷ 10 ∷ []

feed-append_example :
    feed new_decoder (started ++ finishing)
    ≡ prepend (7 ∷ 8 ∷ []) (feed (record new_decoder { remaining = 1 }) finishing)
feed-append_example =
    feed-append new_decoder (record new_decoder { remaining = 1 }) started finishing (7 ∷ 8 ∷ [])
      part_read
