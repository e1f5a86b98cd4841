-- ===== src/Rtcm.antt =====
-- src/sp_rtk_base_relay/rtcm_decoder.py: RTCM 3 frames and their CRC-24Q.
-- A byte is a number below 256 and `bytes` is a list of them. Python's integers are unbounded, and
-- the mask 0xFFFFFF is written out. The subscript of the table is below 256 for bytes
-- (`Division.Table.table_index-lt`), so the default of `get_or` stands for no value that is read.
-- A loop that moves `offset` through a buffer is written on the bytes from `offset` on. It takes
-- fuel, one round for each byte: every round but the last moves on by a byte or more.
pub mod Table
pub mod Division
pub mod Residue
pub mod Detection
pub mod Fields
pub mod Encoding
mod Tests
use sp_rtk_base_relay.Prelude.{
  ℕ, zero, suc, ◌+◌, ◌-◌, ◌*◌, ◌/◌, ◌^◌, ◌<◌, bit_and, bit_or, bit_xor, Bool, true, false, not,
  ◌&&◌, Option, none, some, List, [], ◌∷◌, All, length, get_or, take, drop, ltb, ◌==◌,
  if◌then◌else◌,
}
use Table.{crc24q_table}

abbrev pub Bytes : Type 0
Bytes = List ℕ

abbrev pub IsByte : ℕ → Type 0
IsByte b = b < 256

abbrev pub IsBytes : Bytes → Type 0
IsBytes = All IsByte

-- (crc >> 16) ^ byte
pub table_index : ℕ → ℕ → ℕ
table_index crc byte = bit_xor (crc / 2 ^ 16) byte

-- One round of the loop.
pub crc_step : ℕ → ℕ → ℕ
unfolding table_index
crc_step crc byte =
    bit_xor (bit_and (crc * 2 ^ 8) 0xFFFFFF) (get_or crc24q_table (table_index crc byte) 0)

pub crc_loop : ℕ → Bytes → ℕ
crc_loop crc [] = crc
crc_loop crc (byte ∷ data') = crc_loop (crc_step crc byte) data'

pub calc_crc24q : Bytes → ℕ
calc_crc24q data' = crc_loop 0 data'

-- (frame[-3] << 16) | (frame[-2] << 8) | frame[-1]
pub frame_crc : Bytes → ℕ
frame_crc frame =
    let at = λ (i : ℕ). get_or frame (length frame - i) 0 in
    bit_or (bit_or (at 3 * 2 ^ 16) (at 2 * 2 ^ 8)) (at 1)

pub validate_crc24q : Bytes → Bool
validate_crc24q frame =
    if ltb (length frame) 6
    then false
    else calc_crc24q (take (length frame - 3) frame) == frame_crc frame

abbrev pub preamble : ℕ
preamble = 0xD3

-- ((data[1] & 0x03) << 8) | data[2]
pub length_field : Bytes → ℕ
length_field data' = bit_or (bit_and (get_or data' 1 0) 0x03 * 2 ^ 8) (get_or data' 2 0)

-- 3 (header) + length (payload) + 3 (CRC)
abbrev pub expected_frame_length : Bytes → ℕ
expected_frame_length data' = 3 + length_field data' + 3

-- (data[3] << 4) | (data[4] >> 4)
pub message_id_field : Bytes → ℕ
message_id_field data' = bit_or (get_or data' 3 0 * 2 ^ 4) (get_or data' 4 0 / 2 ^ 4)

pub extract_message_id : Bytes → Bool → Option ℕ
extract_message_id data' validate_crc =
    if ltb (length data') 8
    then none
    else if not (get_or data' 0 0 == preamble)
    then none
    else if ltb 1023 (length_field data')
    then none
    else if ltb (length data') (expected_frame_length data')
    then none
    else if validate_crc && not (validate_crc24q (take (expected_frame_length data') data'))
    then none
    else if ltb 4095 (message_id_field data')
    then none
    else some (message_id_field data')

pub extract_message_length : Bytes → Option ℕ
extract_message_length data' =
    if ltb (length data') 3
    then none
    else if not (get_or data' 0 0 == preamble)
    then none
    else some (length_field data')

pub is_valid_rtcm_frame : Bytes → Bool → Bool
is_valid_rtcm_frame data' validate_crc =
    if ltb (length data') 8
    then false
    else if not (get_or data' 0 0 == preamble)
    then false
    else if ltb 1023 (length_field data')
    then false
    else if ltb (length data') (expected_frame_length data')
    then false
    else if validate_crc && not (validate_crc24q (take (expected_frame_length data') data'))
    then false
    else true

-- `if msg_id is not None: message_ids.append(msg_id)`
pub append_found {ℓ} : {A : Type ℓ} → Option A → List A → List A
append_found none found = found
append_found (some a) found = a ∷ found

pub ids_loop : ℕ → Bytes → List ℕ
ids_loop zero rest = []
ids_loop (suc fuel) [] = []
ids_loop (suc fuel) (b ∷ rest) =
    let frame_length = expected_frame_length (b ∷ rest) in
    let skip = ids_loop fuel rest in
    let next =
      append_found (extract_message_id (take frame_length (b ∷ rest)) true)
        (ids_loop fuel (drop frame_length (b ∷ rest))) in
    if not (b == preamble)
    then skip
    else if ltb (length (b ∷ rest)) 8
    then []
    else if ltb (length (b ∷ rest)) frame_length
    then []
    else next

pub extract_all_message_ids : Bytes → List ℕ
extract_all_message_ids data' = ids_loop (length data') data'
