-- ===== src/Hub/Broadcast/Paths/Turns.antt =====
-- One destination's turns at the chunks of src/sp_rtk_base_relay/core/broadcast_hub.py.
use sp_rtk_base_relay.Prelude.{
  ◌≡◌, refl, ◌∙◌, ap, sym, inl, inr, true, false, List, [], ◌∷◌, arith, Bool-cases,
}
use sp_rtk_base_relay.Rtcm.{Bytes}
use sp_rtk_base_relay.Framing.{Parsed, parse_frames, parse_chunks}
use sp_rtk_base_relay.Framing.Chunks.{parsed_first, parse_chunks-nil}
use sp_rtk_base_relay.Filter.{requires_parsing}
use sp_rtk_base_relay.Destination.{Destination, enqueue}
use sp_rtk_base_relay.Hub.Broadcast.{enqueue_all, deliver_raw, deliver_filtered}
use sp_rtk_base_relay.Hub.Broadcast.Receives.{
  receives, enqueue-IsAlike, receives_off, receives_raw, receives_filtered, given, given-IsAlike,
  given-nil, given-append,
}

module _ {R : Type 0} where
  deliver_off :
      (bytes : Bytes) (frames : List Parsed) (d : Destination R)
      → d.enabled ≡ false
      → (deliver_filtered bytes frames d ≡ d) × (deliver_raw bytes d ≡ d)
  unfolding deliver_filtered deliver_raw
  deliver_off bytes frames d off = simp off (refl, refl)

  deliver_plain :
      (bytes : Bytes) (frames : List Parsed) (d : Destination R)
      → d.enabled ≡ true
      → requires_parsing d.filter ≡ false
      → (deliver_filtered bytes frames d ≡ (enqueue d bytes).0)
        × (deliver_raw bytes d ≡ (enqueue d bytes).0)
  unfolding deliver_filtered deliver_raw
  deliver_plain bytes frames d on plain = simp (on, plain) (refl, refl)

  deliver_given :
      (bytes : Bytes) (frames : List Parsed) (d : Destination R)
      → d.enabled ≡ true
      → requires_parsing d.filter ≡ true
      → deliver_filtered bytes frames d ≡ given d.filter frames d
  unfolding deliver_filtered given
  deliver_given bytes [] d on filtered = simp (on, filtered) (sym (given-nil d.filter d))
  deliver_given bytes (frame ∷ frames) d on filtered = simp (on, filtered) refl

  -- What a destination without a filter gets does not depend on the buffer.
  plain_turn :
      (buffer left bytes : Bytes) (chunks : List Bytes) (d : Destination R)
      → d.enabled ≡ true
      → requires_parsing d.filter ≡ false
      → receives left chunks (enqueue d bytes).0 ≡ receives buffer (bytes ∷ chunks) d
  unfolding enqueue_all
  plain_turn buffer left bytes chunks d on plain =
      let (enabled, filter) = enqueue-IsAlike d bytes in
      receives_raw left chunks (enqueue d bytes).0 (enabled ∙ on)
        (ap requires_parsing filter ∙ plain)
      ∙ sym (receives_raw buffer (bytes ∷ chunks) d on plain)

  pub turn_raw :
      (buffer left bytes : Bytes) (chunks : List Bytes) (d : Destination R)
      → requires_parsing d.filter ≡ false
      → receives left chunks (deliver_raw bytes d) ≡ receives buffer (bytes ∷ chunks) d
  turn_raw buffer left bytes chunks d plain = elim (Bool-cases d.enabled) [
    | inl on ↦
        ap (receives left chunks) (deliver_plain bytes [] d on plain).1
        ∙ plain_turn buffer left bytes chunks d on plain
    | inr off ↦
        ap (receives left chunks) (deliver_off bytes [] d off).1
        ∙ receives_off left chunks d off
        ∙ sym (receives_off buffer (bytes ∷ chunks) d off)
  ]

  filtered_turn :
      (buffer bytes : Bytes) (chunks : List Bytes) (d : Destination R)
      → d.enabled ≡ true
      → requires_parsing d.filter ≡ true
      → let (frames, left) = parse_frames buffer bytes in
        receives left chunks (given d.filter frames d) ≡ receives buffer (bytes ∷ chunks) d
  filtered_turn buffer bytes chunks d on filtered =
      let (frames, left) = parse_frames buffer bytes in
      let (enabled, filter) = given-IsAlike d.filter frames d in
      let after = given d.filter frames d in
      receives_filtered left chunks after (enabled ∙ on) (ap requires_parsing filter ∙ filtered)
      ∙ ap (λ config. given config (parse_chunks left chunks).0 after) filter
      ∙ given-append d.filter frames (parse_chunks left chunks).0 d
      ∙ ap (λ frames'. given d.filter frames' d) (sym (parsed_first buffer bytes chunks))
      ∙ sym (receives_filtered buffer (bytes ∷ chunks) d on filtered)

  pub turn_filtered :
      (buffer bytes : Bytes) (chunks : List Bytes) (d : Destination R)
      → let (frames, left) = parse_frames buffer bytes in
        receives left chunks (deliver_filtered bytes frames d) ≡ receives buffer (bytes ∷ chunks) d
  turn_filtered buffer bytes chunks d =
      let (frames, left) = parse_frames buffer bytes in
      elim (Bool-cases d.enabled) [
        | inr off ↦
            ap (receives left chunks) (deliver_off bytes frames d off).0
            ∙ receives_off left chunks d off
            ∙ sym (receives_off buffer (bytes ∷ chunks) d off)
        | inl on ↦ elim (Bool-cases (requires_parsing d.filter)) [
          | inl filtered ↦
              ap (receives left chunks) (deliver_given bytes frames d on filtered)
              ∙ filtered_turn buffer bytes chunks d on filtered
          | inr plain ↦
              ap (receives left chunks) (deliver_plain bytes frames d on plain).0
              ∙ plain_turn buffer left bytes chunks d on plain
        ]
      ]

  pub receives-nil : (buffer : Bytes) (d : Destination R) → receives buffer [] d ≡ d
  unfolding enqueue_all
  receives-nil buffer d = elim (Bool-cases d.enabled) [
    | inr off ↦ receives_off buffer [] d off
    | inl on ↦ elim (Bool-cases (requires_parsing d.filter)) [
      | inl filtered ↦
          receives_filtered buffer [] d on filtered
          ∙ ap (λ frames. given d.filter frames d) (parse_chunks-nil buffer)
          ∙ given-nil d.filter d
      | inr plain ↦ receives_raw buffer [] d on plain
    ]
  ]

  pub deliver_raw-filter :
      (bytes : Bytes) (d : Destination R) → (deliver_raw bytes d).filter ≡ d.filter
  unfolding deliver_raw enqueue
  deliver_raw-filter bytes d = ground arith
