-- ===== src/Rtcm/Encoding.antt =====
-- An encoder of RTCM 3 frames, written from the frame format, and the decoder of
-- src/sp_rtk_base_relay/rtcm_decoder.py on what it writes.
use sp_rtk_base_relay.Prelude.{
  ℕ, ◌+◌, ◌*◌, ◌/◌, ◌%◌, ◌^◌, ◌≤◌, ◌<◌, bit_xor, ◌≡◌, refl, ◌∙◌, ap, Bool, true, some, [], ◌∷◌,
  ◌++◌, arith, All-append, length, length-append, get_or, get_or-append, take, take_left,
}
use sp_rtk_base_relay.Prelude.Bits.{xor_self, bit_and_mask, bit_or_fields}
use sp_rtk_base_relay.Rtcm.{
  Bytes, IsByte, IsBytes, length_field, message_id_field, preamble, expected_frame_length, crc_loop,
  calc_crc24q, validate_crc24q, extract_message_id, extract_message_length, is_valid_rtcm_frame,
}
use sp_rtk_base_relay.Rtcm.Division.{shift_bits, shift_bits-zero}
use sp_rtk_base_relay.Rtcm.Division.Table.{crc_loop-lt}
use sp_rtk_base_relay.Rtcm.Residue.{word, crc_loop-append, crc_loop-word, residue_word}
use sp_rtk_base_relay.Rtcm.Fields.{get_or-IsByte, is_valid_of, extract_of_valid}

-- The preamble, ten bits of length, and the payload.
abbrev pub encode_body : Bytes → Bytes
encode_body payload = preamble ∷ length payload / 256 ∷ length payload % 256 ∷ payload

abbrev pub crc_bytes : ℕ → Bytes
crc_bytes crc = crc / 2 ^ 16 ∷ crc / 2 ^ 8 % 256 ∷ crc % 256 ∷ []

pub encode : Bytes → Bytes
encode payload = encode_body payload ++ crc_bytes (calc_crc24q (encode_body payload))

abbrev pub IsPayload : Bytes → Type 0
IsPayload payload = IsBytes payload × (2 ≤ length payload) × (length payload ≤ 1023)

module _ (payload : Bytes) (h : IsPayload payload) where
  body-IsBytes : IsBytes (encode_body payload)
  body-IsBytes = (omega arith, (omega arith, (omega arith, h.0)))

  crc-lt : calc_crc24q (encode_body payload) < 2 ^ 24
  unfolding calc_crc24q
  crc-lt = crc_loop-lt 0 (encode_body payload) (omega arith) body-IsBytes

  crc_bytes-IsBytes : IsBytes (crc_bytes (calc_crc24q (encode_body payload)))
  crc_bytes-IsBytes = (omega (arith, crc-lt), (omega arith, (omega arith, tt)))

  pub encode-IsBytes : IsBytes (encode payload)
  unfolding encode
  encode-IsBytes =
      All-append IsByte (encode_body payload) (crc_bytes (calc_crc24q (encode_body payload)))
        body-IsBytes crc_bytes-IsBytes

  pub length-encode : length (encode payload) ≡ 3 + length payload + 3
  unfolding encode
  length-encode =
      omega (arith, length-append payload (crc_bytes (calc_crc24q (encode_body payload))))

-- A CRC appended to what it is the CRC of leaves no remainder.
crc_bytes_residue :
    (body : Bytes)
    → IsBytes body
    → calc_crc24q body < 2 ^ 24
    → calc_crc24q (body ++ crc_bytes (calc_crc24q body)) ≡ 0
unfolding calc_crc24q
crc_bytes_residue body hb hc =
    let c = crc_loop 0 body in
    let whole : word (c / 2 ^ 16) (c / 2 ^ 8 % 256) (c % 256) ≡ c = omega arith in
    crc_loop-append 0 body (crc_bytes c)
    ∙ crc_loop-word c (c / 2 ^ 16) (c / 2 ^ 8 % 256) (c % 256) hc (omega arith) (omega arith)
        (omega arith)
    ∙ ap (λ w. shift_bits 24 (bit_xor c w)) whole
    ∙ ap (shift_bits 24) (xor_self c)
    ∙ shift_bits-zero 24

module _ (payload : Bytes) (h : IsPayload payload) where
  pub validate-encode : validate_crc24q (encode payload) ≡ true
  unfolding encode
  validate-encode =
      let body = encode_body payload in
      let c = calc_crc24q body in
      let bytes = crc_bytes-IsBytes payload h in
      (residue_word body (c / 2 ^ 16) (c / 2 ^ 8 % 256) (c % 256) (omega arith)
          (body-IsBytes payload h) bytes.0 bytes.1.0 bytes.1.1.0).1
        (crc_bytes_residue body (body-IsBytes payload h) (crc-lt payload h))

  -- The fields of an encoded frame, whatever follows it.
  module _ (rest : Bytes) where
    pub length_field-encode : length_field (encode payload ++ rest) ≡ length payload
    unfolding length_field encode
    length_field-encode = ground (
      arith,
      bit_and_mask 2 (length payload / 256),
      bit_or_fields 8 (length payload / 256) (length payload % 256),
    )

    payload_at :
        (i : ℕ)
        → i < 2
        → (get_or (payload ++ crc_bytes (calc_crc24q (encode_body payload)) ++ rest) i 0)
          ≡ get_or payload i 0
    payload_at i hi =
        let crc = crc_bytes (calc_crc24q (encode_body payload)) in
        get_or-append i (payload ++ crc) rest 0 (omega (arith, length-append payload crc))
        ∙ get_or-append i payload crc 0 (omega arith)

    message_id_field-encode :
        message_id_field (encode payload ++ rest)
        ≡ get_or payload 0 0 * 16 + get_or payload 1 0 / 16
    unfolding message_id_field encode
    message_id_field-encode = ground (
      arith,
      payload_at 0,
      payload_at 1,
      get_or-IsByte payload 1 h.0,
      bit_or_fields 4 (get_or payload 0 0) (get_or payload 1 0 / 16),
    )

    pub take-encode :
        take (expected_frame_length (encode payload ++ rest)) (encode payload ++ rest)
        ≡ encode payload
    take-encode =
        take_left (expected_frame_length (encode payload ++ rest)) (encode payload) rest
          (omega (arith, length_field-encode, length-encode payload h))

    pub starts : get_or (encode payload ++ rest) 0 0 ≡ preamble
    unfolding encode
    starts = refl

    pub is_valid-encode :
        (validate_crc : Bool) → is_valid_rtcm_frame (encode payload ++ rest) validate_crc ≡ true
    is_valid-encode v =
        let n = length-append (encode payload) rest in
        let m = length-encode payload h in
        is_valid_of (encode payload ++ rest) v (omega arith) starts
          (omega (arith, length_field-encode)) (omega (arith, length_field-encode))
          (rw take-encode validate-encode)

-- An encoded frame is valid, whatever bytes follow it and whether its CRC is checked or not, and
-- the decoder returns the first twelve bits and the length of its payload.
pub decode-encode :
    (payload rest : Bytes) (validate_crc : Bool)
    → IsPayload payload
    → IsBytes rest
    → (is_valid_rtcm_frame (encode payload ++ rest) validate_crc ≡ true)
      × (extract_message_id (encode payload ++ rest) validate_crc
          ≡ some (get_or payload 0 0 * 16 + get_or payload 1 0 / 16))
      × (extract_message_length (encode payload ++ rest) ≡ some (length payload))
unfolding extract_message_length
decode-encode payload rest v h hr =
    let valid = is_valid-encode payload h rest v in
    let bytes = All-append IsByte (encode payload) rest (encode-IsBytes payload h) hr in
    (
      valid,
      extract_of_valid (encode payload ++ rest) v bytes valid
          ∙ ap some (message_id_field-encode payload h rest),
      ground (
        arith,
        starts payload h rest,
        length_field-encode payload h rest,
        length-append (encode payload) rest,
        length-encode payload h,
      ),
    )
