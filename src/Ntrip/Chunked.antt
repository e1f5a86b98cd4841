-- ===== src/Ntrip/Chunked.antt =====
-- Chunked bodies: the decoder of src/sp_rtk_base_relay/core/ntrip/chunked.py, and how
-- src/sp_rtk_base_relay/core/destinations/ntrip_destination.py sends a chunk.
-- A feed gives the decoder and the bytes, or the ValueError that it raises.
pub mod Digits
pub mod Rounds
pub mod RoundTrip
pub mod Pieces
pub mod Splits
pub mod Whole
mod Tests
use sp_rtk_base_relay.Prelude.{
  ℕ, zero, suc, ◌+◌, ◌*◌, ◌-◌, ◌/◌, ◌%◌, min, String, Bool, true, false, not, ◌&&◌, ◌||◌, Option,
  none, some, List, [], ◌∷◌, ◌++◌, length, take, drop, leb, ltb, ◌==◌, if◌then◌else◌,
}
use sp_rtk_base_relay.Prelude.Int.{ℤ, pos, negsuc}
use sp_rtk_base_relay.Prelude.Text.{same_text}
use sp_rtk_base_relay.Rtcm.{Bytes}

pub record ChunkedDecoder : Type 0 where
  pub buffer : Bytes
  pub remaining : ℕ
  pub expect_crlf : Bool
  pub finished : Bool

abbrev pub new_decoder : ChunkedDecoder
new_decoder = record { buffer = []; remaining = 0; expect_crlf = false; finished = false }

abbrev pub max_size_line : ℕ
max_size_line = 256

-- bytes.strip(): spaces, tabs and line ends.
abbrev pub is_white : ℕ → Bool
is_white b = (leb 9 b && leb b 13) || (b == 32)

pub strip_left : Bytes → Bytes
strip_left [] = []
strip_left (b ∷ bytes) = let rest = strip_left bytes in if is_white b then rest else b ∷ bytes

pub strip_right : Bytes → Bytes
strip_right [] = []
strip_right (b ∷ bytes) = elim (strip_right bytes) [
  | [] ↦ if is_white b then [] else b ∷ []
  | c ∷ rest ↦ b ∷ c ∷ rest
]

-- line.split(b";", 1)[0]
pub before_semicolon : Bytes → Bytes
before_semicolon [] = []
before_semicolon (b ∷ bytes) = let rest = before_semicolon bytes in if b == 59 then [] else b ∷ rest

pub size_field : Bytes → Bytes
unfolding strip_left strip_right before_semicolon
size_field line = strip_right (strip_left (before_semicolon line))

pub hex_value : ℕ → Option ℕ
hex_value c =
    if leb 48 c && leb c 57
    then some (c - 48)
    else if leb 97 c && leb c 102
    then some (c - 87)
    else if leb 65 c && leb c 70
    then some (c - 55)
    else none

-- The digits of int(text, 16): whether a `_` may stand here, whether the text may end here, and the
-- value so far.
pub digits : Bool → Bool → ℕ → Bytes → Option ℕ
digits underscore end value [] = if end then some value else none
digits underscore end value (c ∷ text) =
    let after_underscore = digits false false value text in
    if c == 95
    then if underscore then after_underscore else none
    else elim (hex_value c) [ none ↦ none | some v ↦ digits true true (value * 16 + v) text ]

-- An optional 0x or 0X.
pub unsigned : Bytes → Option ℕ
unfolding digits
unsigned (a ∷ b ∷ text) =
    if (a == 48) && ((b == 120) || (b == 88))
    then digits true false 0 text
    else digits false false 0 (a ∷ b ∷ text)
unsigned text = digits false false 0 text

abbrev pub negated : ℕ → ℤ
negated zero = pos 0
negated (suc n) = negsuc n

-- int(text, 16), `none` for its ValueError.
pub hex_int : Bytes → Option ℤ
unfolding unsigned
hex_int [] = none
hex_int (c ∷ text) =
    if c == 45
    then elim (unsigned text) [ none ↦ none | some n ↦ some (negated n) ]
    else if c == 43
    then elim (unsigned text) [ none ↦ none | some n ↦ some (pos n) ]
    else elim (unsigned (c ∷ text)) [ none ↦ none | some n ↦ some (pos n) ]

-- buffer.partition(b"\n"): the line and the rest, if there is a newline.
unfoldable pub partition_line : Bytes → Option (Bytes × Bytes)
partition_line [] = none
partition_line (b ∷ bytes) =
    let later = elim (partition_line bytes) as (λ x. Option (Bytes × Bytes)) [
      | none ↦ none
      | some (line, rest) ↦ some (b ∷ line, rest)
    ] in
    if b == 10 then some ([], bytes) else later

-- One round of the loop: it breaks, raises, or goes on with bytes that it has decoded.
pub data Round : Type 0 where
  breaks : ChunkedDecoder → Round
  raises : String → Round
  goes_on : Bytes → ChunkedDecoder → Round

pub take_data : ChunkedDecoder → Round
take_data d =
    let left = d.remaining - length (take d.remaining d.buffer) in
    goes_on (take d.remaining d.buffer) (record d {
      buffer = drop (length (take d.remaining d.buffer)) d.buffer;
      remaining = left;
      expect_crlf = left == 0 || d.expect_crlf;
    })

pub take_crlf : ChunkedDecoder → Bytes → Round
take_crlf d [] = breaks d
take_crlf d (b ∷ bytes) =
    if b == 10 then goes_on [] (record d { buffer = bytes; expect_crlf = false }) else elim bytes [
      | [] ↦ breaks d
      | c ∷ rest ↦
          if (b == 13) && (c == 10)
          then goes_on [] (record d { buffer = rest; expect_crlf = false })
          else raises "chunk data not followed by CRLF"
    ]

pub start_chunk : ChunkedDecoder → Bytes → Option ℤ → Round
start_chunk d rest none = raises "bad chunk size"
start_chunk d rest (some (negsuc n)) = raises "bad chunk size"
start_chunk d rest (some (pos zero)) = breaks (record d { buffer = []; finished = true })
start_chunk d rest (some (pos (suc n))) = goes_on [] (record d { buffer = rest; remaining = suc n })

pub take_size : ChunkedDecoder → Round
unfolding partition_line start_chunk hex_int size_field
take_size d = elim (partition_line d.buffer) [
  | none ↦
      if ltb max_size_line (length d.buffer) then raises "chunk size line too long" else breaks d
  | some (line, rest) ↦ start_chunk d rest (hex_int (size_field line))
]

pub round : ChunkedDecoder → Round
unfolding take_data take_crlf take_size
round d =
    if ltb 0 d.remaining
    then take_data d
    else if d.expect_crlf
    then take_crlf d d.buffer
    else take_size d

pub data Fed : Type 0 where
  fed : ChunkedDecoder → Bytes → Fed
  value_error : String → Fed

pub prepend : Bytes → Fed → Fed
prepend out (fed d bytes) = fed d (out ++ bytes)
prepend out (value_error e) = value_error e

pub feed_loop : ℕ → ChunkedDecoder → Fed
unfolding round prepend
feed_loop zero d = fed d []
feed_loop (suc fuel) d = elim d.buffer [
  | [] ↦ fed d []
  | b ∷ bytes ↦ elim (round d) [
    | breaks d' ↦ fed d' []
    | raises e ↦ value_error e
    | goes_on out d' ↦ prepend out (feed_loop fuel d')
  ]
]

-- Each round that goes on takes a byte at least, so the buffer's length is enough.
pub feed : ChunkedDecoder → Bytes → Fed
unfolding feed_loop
feed d more =
    let grown : ChunkedDecoder = record d { buffer = d.buffer ++ more } in
    if d.finished then fed d [] else feed_loop (length grown.buffer) grown

abbrev pub hex_digit : ℕ → ℕ
hex_digit v = if ltb v 10 then v + 48 else v + 87

-- f"{n:x}", with the digits that are there so far.
pub hex_loop : ℕ → ℕ → Bytes → Bytes
hex_loop zero n text = text
hex_loop (suc fuel) n text =
    let more = hex_loop fuel (n / 16) (hex_digit (n % 16) ∷ text) in
    if ltb n 16 then hex_digit n ∷ text else more

pub hex : ℕ → Bytes
unfolding hex_loop
hex n = hex_loop (suc n) n []

-- What _send_data() sends.
pub payload_of : String → Bytes → Bytes
unfolding hex
payload_of version message =
    if same_text version "1.0"
    then message
    else hex (length message) ++ 13 ∷ 10 ∷ (message ++ 13 ∷ 10 ∷ [])
