-- ===== src/Rtcm/Tests.antt =====
-- Runs of src/sp_rtk_base_relay/rtcm_decoder.py, and its theorems at concrete frames.
use sp_rtk_base_relay.Prelude.{◌<◌, ◌^◌, ◌≡◌, refl, true, some, none, [], ◌∷◌, ◌++◌, arith}
use sp_rtk_base_relay.Rtcm.Table.{crc24q_table}
use sp_rtk_base_relay.Rtcm.{
  Bytes, message_id_field, calc_crc24q, crc_loop, crc_step, frame_crc, length_field,
  validate_crc24q, is_valid_rtcm_frame, extract_message_id, extract_message_length,
  extract_all_message_ids, ids_loop, append_found,
}
use sp_rtk_base_relay.Rtcm.Division.{remainder}
use sp_rtk_base_relay.Rtcm.Division.Table.{calc_crc24q-eq-remainder}
use sp_rtk_base_relay.Rtcm.Detection.{validate_crc24q-burst}
use sp_rtk_base_relay.Rtcm.Encoding.{encode, decode-encode}

-- An RTCM 1005 frame with a payload of two bytes.
abbrev frame_1005 : Bytes
frame_1005 = 0xD3 ∷ 0x00 ∷ 0x02 ∷ 0x3E ∷ 0xD0 ∷ 0xA4 ∷ 0xE0 ∷ 0x00 ∷ []

abbrev window : Bytes
window = 0x3E ∷ 0xD0 ∷ 0xA4 ∷ []

frame_1005_valid : validate_crc24q frame_1005 ≡ true
unfolding validate_crc24q calc_crc24q crc_loop crc_step crc24q_table frame_crc
frame_1005_valid = refl

two_frames : extract_all_message_ids (0x01 ∷ frame_1005 ++ frame_1005) ≡ 1005 ∷ 1005 ∷ []
unfolding extract_all_message_ids ids_loop append_found extract_message_id message_id_field
    length_field validate_crc24q calc_crc24q crc_loop crc_step crc24q_table frame_crc
two_frames = refl

damaged :
    extract_message_id (0xD3 ∷ 0x00 ∷ 0x02 ∷ 0x3E ∷ 0xD1 ∷ 0xA4 ∷ 0xE0 ∷ 0x00 ∷ []) true ≡ none
unfolding extract_message_id message_id_field length_field validate_crc24q calc_crc24q crc_loop
    crc_step crc24q_table frame_crc
damaged = refl

calc_crc24q-eq-remainder_example :
    (calc_crc24q frame_1005 ≡ remainder 0 frame_1005) × (calc_crc24q frame_1005 < 2 ^ 24)
calc_crc24q-eq-remainder_example = calc_crc24q-eq-remainder frame_1005 (omega arith)

validate_crc24q-burst_example : window ≡ window
validate_crc24q-burst_example =
    validate_crc24q-burst (0xD3 ∷ 0x00 ∷ 0x02 ∷ []) window window (0xE0 ∷ 0x00 ∷ []) (omega arith)
      (omega arith) (omega arith) (omega arith) refl refl frame_1005_valid frame_1005_valid

decode-encode_example :
    (is_valid_rtcm_frame (encode (0x3E ∷ 0xD0 ∷ []) ++ 0x01 ∷ []) true ≡ true)
    × (extract_message_id (encode (0x3E ∷ 0xD0 ∷ []) ++ 0x01 ∷ []) true ≡ some 1005)
    × (extract_message_length (encode (0x3E ∷ 0xD0 ∷ []) ++ 0x01 ∷ []) ≡ some 2)
decode-encode_example =
    decode-encode (0x3E ∷ 0xD0 ∷ []) (0x01 ∷ []) true (omega arith) (omega arith)
