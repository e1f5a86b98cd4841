-- ===== src/Hub/Consistency.antt =====
-- What holds of the hub of src/sp_rtk_base_relay/core/broadcast_hub.py through its calls, in any
-- order: destinations added, removed, stopped and started, subscribers that come and go, chunks.
pub mod Steps
pub mod Calls
pub mod Runs
use sp_rtk_base_relay.Prelude.{
  ℕ, ◌≡◌, ◌≢◌, String, Bool, true, false, not, ◌||◌, List, [], ◌∷◌, map, All,
}
use sp_rtk_base_relay.Filter.{is_empty}
use sp_rtk_base_relay.Destination.{Destination}
use sp_rtk_base_relay.Hub.{BroadcastHub, any_filters}

abbrev pub names : {R : Type 0} → List (Destination R) → List String
names [] = []
names (d ∷ ds) = d.name ∷ names ds

abbrev pub IsUnique : List String → Type 0
IsUnique [] = Unit
IsUnique (n ∷ ns) = All (λ m. m ≢ n) ns × IsUnique ns

-- No two destinations have the same name; the hub parses exactly when a subscriber or a filter needs
-- it; and it keeps bytes of an unfinished frame only then.
pub record IsConsistent {R : Type 0} (h : BroadcastHub R) : Type 0 where
  pub unique : IsUnique (names h.destinations)
  pub parsing :
      h.any_needs_parsing ≡ (not (is_empty h.frame_subscribers) || any_filters h.destinations)
  pub buffer : h.any_needs_parsing ≡ false → h.frame_buffer ≡ []
