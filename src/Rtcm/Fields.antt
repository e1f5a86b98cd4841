-- ===== src/Rtcm/Fields.antt =====
-- The header fields of src/sp_rtk_base_relay/rtcm_decoder.py as arithmetic, and what
-- extract_message_id, extract_message_length and is_valid_rtcm_frame have to do with one another.
use sp_rtk_base_relay.Prelude.{
  ℕ, zero, suc, ◌+◌, ◌*◌, ◌/◌, ◌%◌, ◌≤◌, ◌<◌, ◌≡◌, Bool, true, none, some, [], ◌∷◌, arith, length,
  get_or, get_or-append, ◌++◌, take, if◌then◌else◌,
}
use sp_rtk_base_relay.Prelude.Bits.{bit_or_fields, bit_and_mask}
use sp_rtk_base_relay.Rtcm.{
  Bytes, IsBytes, length_field, message_id_field, preamble, expected_frame_length, validate_crc24q,
  extract_message_id, is_valid_rtcm_frame,
}

pub get_or-IsByte : (bytes : Bytes) (i : ℕ) → IsBytes bytes → get_or bytes i 0 < 256
get_or-IsByte [] i h = omega arith
get_or-IsByte (b ∷ bytes) zero h = h.0
get_or-IsByte (b ∷ bytes) (suc i) h = get_or-IsByte bytes i h.1

-- Ten bits, so that the test against 1023 never fails.
pub length_field_lem :
    (bytes : Bytes)
    → IsBytes bytes
    → (length_field bytes ≡ get_or bytes 1 0 % 4 * 256 + get_or bytes 2 0)
      × (length_field bytes ≤ 1023)
unfolding length_field
length_field_lem bytes h = ground (
  arith,
  bit_and_mask 2 (get_or bytes 1 0),
  get_or-IsByte bytes 2 h,
  bit_or_fields 8 (get_or bytes 1 0 % 4) (get_or bytes 2 0),
)

-- Twelve bits, so that the test against 4095 never fails.
pub message_id_field_lem :
    (bytes : Bytes)
    → IsBytes bytes
    → (message_id_field bytes ≡ get_or bytes 3 0 * 16 + get_or bytes 4 0 / 16)
      × (message_id_field bytes ≤ 4095)
unfolding message_id_field
message_id_field_lem bytes h = ground (
  arith,
  get_or-IsByte bytes 3 h,
  get_or-IsByte bytes 4 h,
  bit_or_fields 4 (get_or bytes 3 0) (get_or bytes 4 0 / 16),
)

-- On bytes, with the CRC checked or not, a message ID is returned exactly for the valid frames,
-- it is the 12-bit field, and it is at most 4095.
pub extract_message_id-is_valid :
    (bytes : Bytes) (validate_crc : Bool)
    → IsBytes bytes
    → (extract_message_id bytes validate_crc
        ≡ (if is_valid_rtcm_frame bytes validate_crc then some (message_id_field bytes) else none))
      × (message_id_field bytes ≤ 4095)
unfolding extract_message_id is_valid_rtcm_frame
extract_message_id-is_valid bytes v h = ground (arith, message_id_field_lem bytes h)

-- What makes a frame valid.
pub is_valid_of :
    (bytes : Bytes) (validate_crc : Bool)
    → 8 ≤ length bytes
    → get_or bytes 0 0 ≡ preamble
    → length_field bytes ≤ 1023
    → expected_frame_length bytes ≤ length bytes
    → validate_crc24q (take (expected_frame_length bytes) bytes) ≡ true
    → is_valid_rtcm_frame bytes validate_crc ≡ true
unfolding is_valid_rtcm_frame
is_valid_of bytes v long start field whole valid = ground arith

pub extract_of_valid :
    (bytes : Bytes) (validate_crc : Bool)
    → IsBytes bytes
    → is_valid_rtcm_frame bytes validate_crc ≡ true
    → extract_message_id bytes validate_crc ≡ some (message_id_field bytes)
extract_of_valid bytes v h e = ground (arith, extract_message_id-is_valid bytes v h)

pub length_field-append :
    (bytes more : Bytes) → 3 ≤ length bytes → length_field (bytes ++ more) ≡ length_field bytes
unfolding length_field
length_field-append bytes more h =
    rw (get_or-append 1 bytes more 0 (omega arith), get_or-append 2 bytes more 0 (omega arith))
