-- ===== src/Ntrip/Reply/Arrival.antt =====
-- How a caster's reply arrives does not matter to read_reply() of
-- src/sp_rtk_base_relay/core/ntrip/protocol.py.
use sp_rtk_base_relay.Prelude.{
  ℕ, ◌≤◌, ◌≡◌, refl, ◌∙◌, sym, ap, inl, inr, Bool, true, false, none, some, [], ◌∷◌, ◌++◌,
  append_assoc, append-nil, length, length-append, arith, Bool-cases, Option-cases, leb, ltb,
  if◌then◌else◌,
}
use sp_rtk_base_relay.Rtcm.{Bytes}
use sp_rtk_base_relay.Ntrip.Chunked.{partition_line}
use sp_rtk_base_relay.Ntrip.Chunked.Pieces.{partition-append}
use sp_rtk_base_relay.Ntrip.Headers.{split_header_block}
use sp_rtk_base_relay.Ntrip.Headers.Lines.{split_header_block-append}
use sp_rtk_base_relay.Ntrip.Reply.{
  CasterReply, Reads, chunk, closes, times_out, fails, has_read, replied, is_http, is_empty,
  max_reply_head_bytes, parse_reply, reply_of, status_rest, reply_head_complete, wants_more,
  read_loop, reply_from, read_reply,
}

-- The bytes that the calls of recv() give, until the first that gives none.
unfoldable pub delivered : Reads → Bytes
delivered (chunk bytes reads) =
    let rest = delivered reads in if is_empty bytes then [] else bytes ++ rest
delivered closes = []
delivered times_out = []
delivered (fails text) = []

-- Whether the bytes begin with the status line of an HTTP reply.
unfoldable pub is_http_reply : Bytes → Bool
unfolding partition_line
is_http_reply buf = elim (partition_line buf) [
  | none ↦ false
  | some (status, rest) ↦ is_http status
]

Arrived : Bytes → Reads → Type 0
Arrived buf reads =
    (got : Bytes) × (later : Reads) × (read_loop buf reads ≡ has_read got later)
    × (reply_head_complete got ≡ true)
    × (got ++ delivered later ≡ buf ++ delivered reads)

read_loop_done :
    (buf : Bytes) (reads : Reads)
    → reply_head_complete buf ≡ true
    → read_loop buf reads ≡ has_read buf reads
unfolding read_loop wants_more
read_loop_done buf (chunk bytes reads) h = rw h refl
read_loop_done buf closes h = refl
read_loop_done buf times_out h = rw h refl
read_loop_done buf (fails text) h = rw h refl

Arrived-already : (buf : Bytes) (reads : Reads) → reply_head_complete buf ≡ true → Arrived buf reads
unfolding Arrived
Arrived-already buf reads h = (buf, reads, read_loop_done buf reads h, h, refl)

Arrived-at_end :
    (buf : Bytes) (reads : Reads)
    → delivered reads ≡ []
    → reply_head_complete (buf ++ delivered reads) ≡ true
    → Arrived buf reads
Arrived-at_end buf reads e h =
    Arrived-already buf reads
      (ap reply_head_complete (sym (ap (λ more. buf ++ more) e ∙ append-nil buf)) ∙ h)

read_loop_goes_on :
    (buf : Bytes) (b : ℕ) (bytes : Bytes) (reads : Reads)
    → reply_head_complete buf ≡ false
    → length buf ≤ max_reply_head_bytes
    → read_loop buf (chunk (b ∷ bytes) reads) ≡ read_loop (buf ++ (b ∷ bytes)) reads
unfolding read_loop wants_more
read_loop_goes_on buf b bytes reads h n =
    let short : leb (length buf) max_reply_head_bytes ≡ true = ground (arith, n) in
    rw (h, short) refl

read_loop-Arrived :
    (buf : Bytes) (reads : Reads)
    → reply_head_complete (buf ++ delivered reads) ≡ true
    → length (buf ++ delivered reads) ≤ max_reply_head_bytes
    → Arrived buf reads
unfolding delivered Arrived
read_loop-Arrived buf (chunk [] reads) h n = Arrived-at_end buf (chunk [] reads) refl h
read_loop-Arrived buf (chunk (b ∷ bytes) reads) h n = elim (Bool-cases (reply_head_complete buf)) [
  | inl complete ↦ Arrived-already buf (chunk (b ∷ bytes) reads) complete
  | inr waits ↦
      let e : (buf ++ (b ∷ bytes)) ++ delivered reads ≡ buf ++ ((b ∷ bytes) ++ delivered reads) =
        append_assoc buf (b ∷ bytes) (delivered reads) in
      let (got, later, run, complete, same) =
        read_loop-Arrived (buf ++ (b ∷ bytes)) reads (ap reply_head_complete e ∙ h)
          (omega (arith, ap length e, n)) in
      (
        got,
        later,
        read_loop_goes_on buf b bytes reads waits
              (omega (arith, n, length-append buf ((b ∷ bytes) ++ delivered reads)))
            ∙ run,
        complete,
        same ∙ e,
      )
]
read_loop-Arrived buf closes h n = Arrived-at_end buf closes refl h
read_loop-Arrived buf times_out h n = Arrived-at_end buf times_out refl h
read_loop-Arrived buf (fails text) h n = Arrived-at_end buf (fails text) refl h

reply_of-append :
    (status rest more : Bytes)
    → (split_header_block rest).2 ≡ true
    → reply_of status (rest ++ more)
      ≡ record (reply_of status rest) { leftover = (reply_of status rest).leftover ++ more }
unfolding reply_of
reply_of-append status rest more h = rw (split_header_block-append rest more h) refl

module _ (buf status rest : Bytes) (found : partition_line buf ≡ some (status, rest)) where
  status_rest_found : ◌≡◌ {A = Bytes × Bytes} (status_rest buf) (status, rest)
  unfolding status_rest
  status_rest_found = rw (found, status_rest) refl

  parse_reply_found : parse_reply buf ≡ reply_of status rest
  unfolding parse_reply
  parse_reply_found = ap (λ (p : Bytes × Bytes). reply_of p.0 p.1) status_rest_found

  is_http_reply_found : is_http_reply buf ≡ is_http status
  unfolding is_http_reply
  is_http_reply_found = rw (found, is_http_reply) refl

  reply_head_complete_found :
      is_http status ≡ true → reply_head_complete buf ≡ (split_header_block rest).2
  unfolding reply_head_complete
  reply_head_complete_found http = rw (found, reply_head_complete, http) refl

reply_head_complete-none :
    (buf : Bytes) → partition_line buf ≡ none → reply_head_complete buf ≡ false
unfolding reply_head_complete
reply_head_complete-none buf h = rw (h, reply_head_complete) refl

parse_reply-append :
    (got more : Bytes)
    → is_http_reply (got ++ more) ≡ true
    → reply_head_complete got ≡ true
    → parse_reply (got ++ more)
      ≡ record (parse_reply got) { leftover = (parse_reply got).leftover ++ more }
parse_reply-append got more http h = elim (Option-cases (partition_line got)) [
  | inl nothing ↦ absurd (cc (h, reply_head_complete-none got nothing))
  | inr ((status, rest), found) ↦
      let found' = (partition-append got more status rest found).0 in
      let is_http' : is_http status ≡ true =
        sym (is_http_reply_found (got ++ more) status (rest ++ more) found') ∙ http in
      let complete : (split_header_block rest).2 ≡ true =
        sym (reply_head_complete_found got status rest found is_http') ∙ h in
      parse_reply_found (got ++ more) status (rest ++ more) found'
      ∙ reply_of-append status rest more complete
      ∙ ap (λ (reply : CasterReply). record reply { leftover = reply.leftover ++ more })
          (sym (parse_reply_found got status rest found))
]

reply_from_complete :
    (got : Bytes) (later : Reads)
    → reply_head_complete got ≡ true
    → reply_from (has_read got later) ≡ replied (parse_reply got) later
unfolding reply_from
reply_from_complete got later h = elim (Bool-cases (ltb max_reply_head_bytes (length got))) [
  | inl long ↦ rw (long, h) refl
  | inr short ↦ rw short refl
]

-- However the bytes of an HTTP reply arrive, when its status line and its whole header block are
-- among them and they are at most 16,384, read_reply() returns a reply: its outcome, status line and
-- headers are those of all the bytes parsed at once, and what is left over, with the bytes that are
-- still to be read, is what is left over of all the bytes.
pub read_reply-parse_reply :
    (reads : Reads)
    → is_http_reply (delivered reads) ≡ true
    → reply_head_complete (delivered reads) ≡ true
    → length (delivered reads) ≤ max_reply_head_bytes
    → (left : Bytes) × (later : Reads) × (read_reply reads
        ≡ replied (record (parse_reply (delivered reads)) { leftover = left }) later)
      × (left ++ delivered later ≡ (parse_reply (delivered reads)).leftover)
unfolding read_reply Arrived
read_reply-parse_reply reads http complete short =
    let (got, later, run, got_complete, same) = read_loop-Arrived [] reads complete short in
    let whole : parse_reply (delivered reads)
        ≡ record (parse_reply got) { leftover = (parse_reply got).leftover ++ delivered later } =
      ap parse_reply (sym same)
      ∙ parse_reply-append got (delivered later) (ap is_http_reply same ∙ http) got_complete in
    (
      (parse_reply got).leftover,
      later,
      ap reply_from run
          ∙ reply_from_complete got later got_complete
          ∙ ap
              (λ (reply : CasterReply).
                replied (record reply { leftover = (parse_reply got).leftover }) later)
              (sym whole),
      ap (λ (reply : CasterReply). reply.leftover) (sym whole),
    )
