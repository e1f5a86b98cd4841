-- ===== src/Ntrip/Reply/Tests.antt =====
-- Replies of casters, whole and in pieces.
use sp_rtk_base_relay.Prelude.{◌≤◌, ◌≡◌, refl, true, [], ◌∷◌, ◌++◌, length, arith}
use sp_rtk_base_relay.Rtcm.{Bytes}
use sp_rtk_base_relay.Ntrip.Texts.{codes}
use sp_rtk_base_relay.Ntrip.Reply.{
  accepted, sourcetable, auth_rejected, not_found, bad_reply, Reads, chunk, closes, times_out,
  replied, reply_timeout, parse_reply, reply_head_complete, classify_status, read_reply,
  max_reply_head_bytes,
}
use sp_rtk_base_relay.Ntrip.Reply.Arrival.{delivered, is_http_reply, read_reply-parse_reply}

abbrev line_end : Bytes
line_end = 13 ∷ 10 ∷ []

abbrev status_ok : Bytes
status_ok = codes "HTTP/1.1 200 OK" ++ line_end

-- The header block ends in the second piece, with a byte of the data after it.
abbrev pieces : Reads
pieces = chunk (status_ok ++ codes "Content-Ty") (
    chunk (codes "pe: gnss/data" ++ line_end ++ line_end ++ 211 ∷ [])
      (chunk (0 ∷ 19 ∷ []) times_out))

pieces_read :
    read_reply pieces
    ≡ replied
        (record {
          outcome = accepted;
          status_line = codes "HTTP/1.1 200 OK";
          leftover = 211 ∷ [];
          headers = (codes "content-type", codes "gnss/data") ∷ [];
        })
        (chunk (0 ∷ 19 ∷ []) times_out)
unfolding read_reply
pieces_read = refl

v1_read :
    read_reply (chunk (codes "ICY 200 OK" ++ line_end ++ 211 ∷ 0 ∷ []) closes)
    ≡ replied
        (record {
          outcome = accepted;
          status_line = codes "ICY 200 OK";
          leftover = 211 ∷ 0 ∷ [];
          headers = [];
        })
        closes
unfolding read_reply
v1_read = refl

no_status_line : read_reply (chunk (codes "HTTP/1.1 2") times_out) ≡ reply_timeout
unfolding read_reply
no_status_line = refl

table_read :
    (parse_reply (status_ok ++ codes "Content-Type: text/plain; x" ++ line_end ++ line_end)).outcome
    ≡ sourcetable
unfolding parse_reply
table_read = refl

statuses_classified :
    (classify_status (codes "ERROR - Bad Password") ≡ auth_rejected)
    × (classify_status (codes "SOURCETABLE 200 OK") ≡ sourcetable)
    × (classify_status (codes "HTTP/1.0 404 Not Found") ≡ not_found)
    × (classify_status (codes "HTTP/2 200") ≡ bad_reply)
unfolding classify_status
statuses_classified = (refl, refl, refl, refl)

pieces_http : is_http_reply (delivered pieces) ≡ true
unfolding is_http_reply delivered
pieces_http = refl

pieces_complete : reply_head_complete (delivered pieces) ≡ true
unfolding reply_head_complete delivered
pieces_complete = refl

pieces_short : length (delivered pieces) ≤ max_reply_head_bytes
unfolding delivered
pieces_short = omega arith

read_reply-parse_reply_example :
    (left : Bytes) × (later : Reads) × (read_reply pieces
      ≡ replied (record (parse_reply (delivered pieces)) { leftover = left }) later)
    × (left ++ delivered later ≡ (parse_reply (delivered pieces)).leftover)
read_reply-parse_reply_example =
    read_reply-parse_reply pieces pieces_http pieces_complete pieces_short
