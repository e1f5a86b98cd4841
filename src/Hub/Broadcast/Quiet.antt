-- ===== src/Hub/Broadcast/Quiet.antt =====
-- The rounds of the broadcast thread of src/sp_rtk_base_relay/core/broadcast_hub.py do not depend on
-- the events that the hub has emitted, and its watchdog does nothing but emit and count them.
use sp_rtk_base_relay.Prelude.{
  ℕ, ◌≡◌, refl, inl, inr, List, [], ◌∷◌, ◌++◌, Bool-cases, Option, none, some, by_branches, leb,
  ◌==◌, ◌-◌,
}
use sp_rtk_base_relay.Rtcm.{Bytes}
use sp_rtk_base_relay.Hub.{BroadcastHub, emit}
use sp_rtk_base_relay.Hub.Broadcast.{
  broadcast, broadcast_all, distribute_raw, distribute_filtered, check_no_data_watchdog, warn_after,
}

module _ {R : Type 0} where
  -- But for the events that it emitted and the warnings that it counted.
  abbrev pub quiet : BroadcastHub R → BroadcastHub R
  quiet h = record h { emitted = []; stats = record h.stats { no_data_warnings = 0 } }

  pub broadcast-quiet :
      (now : ℕ) (bytes : Bytes) (h : BroadcastHub R)
      → quiet (broadcast now bytes h) ≡ broadcast now bytes (quiet h)
  unfolding broadcast distribute_raw distribute_filtered
  broadcast-quiet now bytes h = elim (Bool-cases h.any_needs_parsing) [
    | inl parsing ↦ simp parsing refl
    | inr raw ↦ simp raw refl
  ]

  warn_after-quiet : (elapsed : ℕ) (h : BroadcastHub R) → quiet (warn_after elapsed h) ≡ quiet h
  unfolding warn_after emit
  warn_after-quiet elapsed h =
      by_branches (λ (h' : BroadcastHub R). quiet h' ≡ quiet h) (leb 30 elapsed) (λ long. refl)
        (λ short. refl)

  warn_since-quiet :
      (now : ℕ) (started_at : Option ℕ) (h : BroadcastHub R)
      → quiet (elim started_at [ none ↦ h | some t ↦ warn_after (now - t) h ]) ≡ quiet h
  warn_since-quiet now none h = refl
  warn_since-quiet now (some t) h = warn_after-quiet (now - t) h

  pub watchdog-quiet :
      (now : ℕ) (h : BroadcastHub R) → quiet (check_no_data_watchdog now h) ≡ quiet h
  unfolding check_no_data_watchdog
  watchdog-quiet now h =
      by_branches (λ (h' : BroadcastHub R). quiet h' ≡ quiet h) (h.stats.last_data_time == 0)
        (λ none_yet. warn_since-quiet now h.stats.started_at h)
        (λ some_data. warn_after-quiet (now - h.stats.last_data_time) h)

  pub broadcast_all-snoc :
      (chunks : List (ℕ × Bytes)) (now : ℕ) (bytes : Bytes) (h : BroadcastHub R)
      → broadcast_all (chunks ++ (now, bytes) ∷ []) h ≡ broadcast now bytes (broadcast_all chunks h)
  unfolding broadcast_all
  broadcast_all-snoc [] now bytes h = refl
  broadcast_all-snoc ((now', bytes') ∷ chunks) now bytes h =
      broadcast_all-snoc chunks now bytes (broadcast now' bytes' h)

  pub broadcast_all-nil : (h : BroadcastHub R) → broadcast_all [] h ≡ h
  unfolding broadcast_all
  broadcast_all-nil h = refl
