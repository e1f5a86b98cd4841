-- ===== src/Filter/Tests.antt =====
-- Runs of the filter of src/sp_rtk_base_relay/core/message_filter.py.
use sp_rtk_base_relay.Prelude.{ℕ, ◌≡◌, refl, List, [], ◌∷◌}
use sp_rtk_base_relay.Prelude.Int.{ℤ, pos, negsuc}
use sp_rtk_base_relay.Rtcm.{Bytes}
use sp_rtk_base_relay.Filter.{
  pass_all, allowlist, blocklist, FilterConfig, err, ids_with_pass_all, invalid_message_id, create,
  check_ids, filter_frames, filter_loop, should_pass, contains,
}

abbrev ids : List ℤ
ids = pos 1005 ∷ pos 1077 ∷ []

abbrev frames : List (ℕ × Bytes)
frames = (1005, 1 ∷ []) ∷ (1087, 2 ∷ []) ∷ (1077, 3 ∷ []) ∷ (1005, 4 ∷ []) ∷ []

abbrev listed : FilterConfig
listed = record { mode = allowlist; message_ids = ids }

abbrev unlisted : FilterConfig
unlisted = record { mode = blocklist; message_ids = ids }

listed_frames : filter_frames listed frames ≡ (1 ∷ []) ∷ (3 ∷ []) ∷ (4 ∷ []) ∷ []
unfolding filter_frames filter_loop should_pass contains
listed_frames = refl

unlisted_frames : filter_frames unlisted frames ≡ (2 ∷ []) ∷ []
unfolding filter_frames filter_loop should_pass contains
unlisted_frames = refl

out_of_range : create blocklist (pos 1005 ∷ pos 4096 ∷ []) ≡ err (invalid_message_id (pos 4096))
unfolding create check_ids
out_of_range = refl

negative_id : create allowlist (negsuc 0 ∷ []) ≡ err (invalid_message_id (negsuc 0))
unfolding create check_ids
negative_id = refl

needless_ids : create pass_all ids ≡ err ids_with_pass_all
unfolding create
needless_ids = refl
