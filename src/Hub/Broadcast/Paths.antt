-- ===== src/Hub/Broadcast/Paths.antt =====
-- The two ways of handing out chunks in src/sp_rtk_base_relay/core/broadcast_hub.py give each
-- destination the same.
pub mod Turns
use sp_rtk_base_relay.Prelude.{
  ℕ, zero, suc, ◌+◌, ◌-◌, ◌≤◌, ◌≡◌, refl, ◌∙◌, ap, ap₂, sym, subst, ◌⊎◌, inl, inr, Bool, true,
  false, not, ◌||◌, Option, none, some, List, [], ◌∷◌, ◌++◌, map, length, length-append,
  append_assoc, append-nil, arith, Bool-cases, if◌then◌else◌,
}
use mathlib.Core.List.{map-map}
use sp_rtk_base_relay.Rtcm.{Bytes}
use sp_rtk_base_relay.Framing.{Parsed, parse_frames, parse_chunks}
use sp_rtk_base_relay.Filter.{requires_parsing, filter_frames, is_empty}
use sp_rtk_base_relay.Destination.{Destination, enqueue}
use sp_rtk_base_relay.Hub.{BroadcastHub, any_filters}
use sp_rtk_base_relay.Hub.Broadcast.{
  deliver_raw, deliver_filtered, distribute_raw, distribute_filtered, broadcast, broadcast_all,
}
use sp_rtk_base_relay.Hub.Broadcast.Receives.{receives}
use Turns.{turn_filtered, turn_raw, receives-nil, deliver_raw-filter}

abbrev pub chunk_bytes : ℕ × Bytes → Bytes
chunk_bytes chunk = chunk.1

module _ {R : Type 0} where
  pub map_agree :
      (f g : Destination R → Destination R) (ds : List (Destination R))
      → ((d : Destination R) → f d ≡ g d)
      → map f ds ≡ map g ds
  map_agree f g [] h = refl
  map_agree f g (d ∷ ds) h =
      ap₂ (λ (x : Destination R) (xs : List (Destination R)). x ∷ xs) (h d) (map_agree f g ds h)

  map_same :
      (f : Destination R → Destination R) (ds : List (Destination R))
      → ((d : Destination R) → f d ≡ d)
      → map f ds ≡ ds
  map_same f [] h = refl
  map_same f (d ∷ ds) h =
      ap₂ (λ (x : Destination R) (xs : List (Destination R)). x ∷ xs) (h d) (map_same f ds h)

  no_filters :
      (d : Destination R) (ds : List (Destination R))
      → any_filters (d ∷ ds) ≡ false
      → (requires_parsing d.filter ≡ false) × (any_filters ds ≡ false)
  unfolding any_filters
  no_filters d ds h = ground (arith, h)

  raw_turns :
      (buffer left bytes : Bytes) (chunks : List Bytes) (ds : List (Destination R))
      → any_filters ds ≡ false
      → (map (receives left chunks) (map (deliver_raw bytes) ds)
          ≡ map (receives buffer (bytes ∷ chunks)) ds)
        × (any_filters (map (deliver_raw bytes) ds) ≡ false)
  unfolding any_filters
  raw_turns buffer left bytes chunks [] h = (refl, refl)
  raw_turns buffer left bytes chunks (d ∷ ds) h =
      let (plain, rest) = no_filters d ds h in
      let (same, none_filters) = raw_turns buffer left bytes chunks ds rest in
      (
        ap₂ (λ (x : Destination R) (xs : List (Destination R)). x ∷ xs)
            (turn_raw buffer left bytes chunks d plain) same,
        simp (deliver_raw-filter bytes d, plain, none_filters) refl,
      )

  -- If the hub does not parse, no destination filters.
  abbrev pub IsParsing : BroadcastHub R → Type 0
  IsParsing h = h.any_needs_parsing ≡ false → any_filters h.destinations ≡ false

  pub broadcast_raw :
      (now : ℕ) (bytes : Bytes) (h : BroadcastHub R)
      → h.any_needs_parsing ≡ false
      → let h' = broadcast now bytes h in
        (h'.destinations ≡ map (deliver_raw bytes) h.destinations)
        × (h'.any_needs_parsing ≡ false)
        × (h'.frame_buffer ≡ h.frame_buffer)
  unfolding broadcast distribute_raw
  broadcast_raw now bytes h raw = simp raw (refl, refl, refl)

  pub broadcast_filtered :
      (now : ℕ) (bytes : Bytes) (h : BroadcastHub R)
      → h.any_needs_parsing ≡ true
      → let h' = broadcast now bytes h in
        let (frames, left) = parse_frames h.frame_buffer bytes in
        (h'.destinations ≡ map (deliver_filtered bytes frames) h.destinations)
        × (h'.any_needs_parsing ≡ true)
        × (h'.frame_buffer ≡ left)
  unfolding broadcast distribute_filtered
  broadcast_filtered now bytes h parsing = simp parsing (refl, refl, refl)

  -- Whichever way the hub hands out chunks, each destination ends up as if the chunks had been
  -- handed to it alone: nothing if it is disabled; without a filter, the chunks themselves; with a
  -- filter, the frames that the hub delimits in its buffer and these chunks and that the filter lets
  -- through, whatever the cutting into chunks, with the other frames counted as filtered. The
  -- condition is that a hub that does not parse has no destination that filters.
  pub broadcast_all-receives :
      (chunks : List (ℕ × Bytes)) (h : BroadcastHub R)
      → IsParsing h
      → (broadcast_all chunks h).destinations
        ≡ map (receives h.frame_buffer (map chunk_bytes chunks)) h.destinations
  unfolding broadcast_all
  broadcast_all-receives [] h p =
      sym (map_same (receives h.frame_buffer []) h.destinations (receives-nil h.frame_buffer))
  broadcast_all-receives ((now, bytes) ∷ chunks) h p = elim (Bool-cases h.any_needs_parsing) [
    | inl parsing ↦
        let (frames, frames_left) = parse_frames h.frame_buffer bytes in
        let (given, still, left) = broadcast_filtered now bytes h parsing in
        let later = map chunk_bytes chunks in
        broadcast_all-receives chunks (broadcast now bytes h) (λ off. cc (still, off))
        ∙ ap₂ (λ (buffer : Bytes) (ds : List (Destination R)). map (receives buffer later) ds) left
            given
        ∙ map-map (receives frames_left later) (deliver_filtered bytes frames) h.destinations
        ∙ map_agree (λ d. receives frames_left later (deliver_filtered bytes frames d))
            (receives h.frame_buffer (bytes ∷ later)) h.destinations
            (turn_filtered h.frame_buffer bytes later)
    | inr raw ↦
        let (given, still, left) = broadcast_raw now bytes h raw in
        let later = map chunk_bytes chunks in
        let (same, none_filters) =
          raw_turns h.frame_buffer h.frame_buffer bytes later h.destinations (p raw) in
        broadcast_all-receives chunks (broadcast now bytes h)
          (λ off. ap any_filters given ∙ none_filters)
        ∙ ap₂ (λ (buffer : Bytes) (ds : List (Destination R)). map (receives buffer later) ds) left
            given
        ∙ same
  ]
