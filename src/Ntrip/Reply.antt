-- ===== src/Ntrip/Reply.antt =====
-- A caster's reply: parse_reply() and read_reply() of src/sp_rtk_base_relay/core/ntrip/protocol.py.
pub mod Arrival
mod Tests
use sp_rtk_base_relay.Prelude.{
  ℕ, zero, suc, ◌+◌, ◌*◌, ◌-◌, String, Bool, true, false, not, ◌&&◌, ◌||◌, Option, none, some, List,
  [], ◌∷◌, ◌++◌, map, length, leb, ltb, ◌==◌, if◌then◌else◌,
}
use sp_rtk_base_relay.Rtcm.{Bytes}
use sp_rtk_base_relay.Ntrip.Chunked.{partition_line}
use sp_rtk_base_relay.Ntrip.Headers.{split_header_block}
use sp_rtk_base_relay.Ntrip.Texts.{
  text_space, line_break, strip_end, strip, decode, lower, codes, same_codes, starts_with, split_at,
  not_empty, partition_at, put_header, get_header,
}

pub data NtripOutcome : Type 0 where
  accepted : NtripOutcome
  sourcetable : NtripOutcome
  auth_rejected : NtripOutcome
  not_found : NtripOutcome
  bad_reply : NtripOutcome

pub record CasterReply : Type 0 where
  pub outcome : NtripOutcome
  pub status_line : Bytes
  pub leftover : Bytes
  pub headers : List (Bytes × Bytes)

abbrev pub max_reply_head_bytes : ℕ
max_reply_head_bytes = 16384

unfoldable pub header_loop : List Bytes → List (Bytes × Bytes) → List (Bytes × Bytes)
header_loop [] headers = headers
header_loop (line ∷ lines) headers = elim (partition_at 58 line) [
  | none ↦ header_loop lines headers
  | some (name, value) ↦ header_loop lines (put_header (lower (strip name)) (strip value) headers)
]

unfoldable pub parse_headers : Bytes → List (Bytes × Bytes)
unfolding header_loop
parse_headers head = header_loop (split_at line_break (decode head)) []

abbrev pub before_mark : ℕ → Bytes → Bytes
before_mark mark text = elim (partition_at mark text) [
  | none ↦ text
  | some (before, after) ↦ before
]

unfoldable pub is_sourcetable_type : List (Bytes × Bytes) → Bool
is_sourcetable_type headers =
    let content_type = lower (strip (before_mark 59 (get_header (codes "content-type") headers))) in
    same_codes content_type (codes "gnss/sourcetable")
    || same_codes content_type (codes "text/plain")

-- The number that a text of digits shows, `none` for any other text. (int() raises a ValueError for
-- more than 4,300 digits, which is left out.)
abbrev pub decimal : ℕ → Bytes → Option ℕ
decimal value [] = some value
decimal value (c ∷ text) =
    let rest = decimal (value * 10 + (c - 48)) text in if leb 48 c && leb c 57 then rest else none

abbrev pub is_known : Bytes → Bool
is_known word =
    same_codes word (codes "ICY")
    || same_codes word (codes "SOURCETABLE")
    || starts_with (codes "HTTP/1.") word

unfoldable pub status_code : Bytes → Option ℕ
status_code status_line = elim (not_empty (split_at text_space status_line)) [
  | [] ↦ none
  | word ∷ [] ↦ none
  | word ∷ number ∷ words ↦ if is_known word then decimal 0 number else none
]

abbrev pub v1_error : Bytes → Option NtripOutcome
v1_error status =
    if same_codes status (codes "error - bad password")
    then some auth_rejected
    else if same_codes status (codes "error - mount point taken or invalid")
    then some not_found
    else none

abbrev pub outcome_of : Option ℕ → Bytes → NtripOutcome
outcome_of none status_line = bad_reply
outcome_of (some code) status_line =
    if code == 200
    then if starts_with (codes "SOURCETABLE") status_line then sourcetable else accepted
    else if (code == 401) || (code == 403)
    then auth_rejected
    else if code == 404
    then not_found
    else bad_reply

unfoldable pub classify_status : Bytes → NtripOutcome
unfolding status_code
classify_status status_line =
    if same_codes status_line (codes "OK") then accepted else elim (v1_error (lower status_line)) [
      | some outcome ↦ outcome
      | none ↦ outcome_of (status_code status_line) status_line
    ]

abbrev pub with_type : NtripOutcome → Bool → NtripOutcome
with_type accepted true = sourcetable
with_type outcome table = outcome

unfoldable pub status_rest : Bytes → Bytes × Bytes
unfolding partition_line
status_rest buffer = elim (partition_line buffer) [
  | none ↦ (buffer, [])
  | some (status, rest) ↦ (status, rest)
]

unfoldable pub reply_of : Bytes → Bytes → CasterReply
unfolding split_header_block parse_headers classify_status is_sourcetable_type
reply_of status rest =
    let status_line = strip (decode (strip_end (λ b. b == 13) status)) in
    let (head, leftover, complete) = split_header_block rest in
    let headers = parse_headers head in
    record {
      outcome = with_type (classify_status status_line) (is_sourcetable_type headers);
      status_line = status_line;
      leftover = leftover;
      headers = headers;
    }

unfoldable pub parse_reply : Bytes → CasterReply
unfolding reply_of status_rest
parse_reply buffer = let (status, rest) = status_rest buffer in reply_of status rest

abbrev pub is_http : Bytes → Bool
is_http status = starts_with (codes "HTTP/") status

unfoldable pub reply_head_complete : Bytes → Bool
unfolding split_header_block partition_line
reply_head_complete buffer = elim (partition_line buffer) [
  | none ↦ false
  | some (status, rest) ↦
      let (head, leftover, complete) = split_header_block rest in
      if is_http status then complete else true
]

-- What the calls of recv() give: bytes, the end of the stream, a timeout at the deadline, or another
-- error of the socket.
pub data Reads : Type 0 where
  chunk : Bytes → Reads → Reads
  closes : Reads
  times_out : Reads
  fails : String → Reads

-- What the reading gives, and what is left to read.
pub data Reading : Type 0 where
  has_read : Bytes → Reads → Reading
  no_reply : Reading
  socket_error : String → Reading

unfoldable pub wants_more : Bytes → Bool
unfolding reply_head_complete
wants_more buf = not (reply_head_complete buf) && leb (length buf) max_reply_head_bytes

unfoldable pub has_newline : Bytes → Bool
unfolding partition_line
has_newline buf = elim (partition_line buf) [ none ↦ false | some parts ↦ true ]

abbrev pub is_empty : Bytes → Bool
is_empty [] = true
is_empty (b ∷ bytes) = false

unfoldable pub read_loop : Bytes → Reads → Reading
unfolding wants_more has_newline
read_loop buf (chunk bytes reads) =
    let rest = read_loop (buf ++ bytes) reads in
    if wants_more buf
    then if is_empty bytes then has_read buf reads else rest
    else has_read buf (chunk bytes reads)
read_loop buf closes = has_read buf closes
read_loop buf times_out =
    if wants_more buf && not (has_newline buf) then no_reply else has_read buf times_out
read_loop buf (fails text) = if wants_more buf then socket_error text else has_read buf (fails text)

-- A reply with what is left to read, or the error that is raised.
pub data Replied : Type 0 where
  replied : CasterReply → Reads → Replied
  reply_timeout : Replied
  reply_error : String → Replied

unfoldable pub reply_from : Reading → Replied
unfolding parse_reply reply_head_complete
reply_from (has_read buf reads) =
    let reply = parse_reply buf in
    if ltb max_reply_head_bytes (length buf) && not (reply_head_complete buf)
    then replied
        (record {
          outcome = bad_reply;
          status_line = reply.status_line;
          leftover = [];
          headers = [];
        })
        reads
    else replied reply reads
reply_from no_reply = reply_timeout
reply_from (socket_error text) = reply_error text

unfoldable pub read_reply : Reads → Replied
unfolding read_loop reply_from
read_reply reads = reply_from (read_loop [] reads)
