-- ===== src/Hub/Broadcast/Kept.antt =====
-- What a chunk leaves as it is in the hub of src/sp_rtk_base_relay/core/broadcast_hub.py.
use sp_rtk_base_relay.Prelude.{
  ℕ, ◌≡◌, refl, ◌∙◌, length, ◌-◌, inl, inr, List, [], ◌∷◌, map, Bool-cases, arith,
}
use sp_rtk_base_relay.Rtcm.{Bytes}
use sp_rtk_base_relay.Framing.{Parsed}
use sp_rtk_base_relay.Filter.{is_empty, filter_frames}
use sp_rtk_base_relay.Destination.{Destination, enqueue}
use sp_rtk_base_relay.Destination.Identity.{IsSame, enqueue-IsSame}
use sp_rtk_base_relay.Subscription.{FrameSubscription, offer}
use sp_rtk_base_relay.Hub.{BroadcastHub, emit}
use sp_rtk_base_relay.Hub.Broadcast.{
  as_frame, broadcast, check_no_data_watchdog, warn_after, offer_loop, deliver_raw,
  deliver_filtered, distribute_raw, distribute_filtered, enqueue_all, add_filtered,
}

offer_loop-is_empty :
    (frames : List Parsed) (subs : List FrameSubscription)
    → is_empty (offer_loop frames subs) ≡ is_empty subs
unfolding offer_loop
offer_loop-is_empty [] subs = refl
offer_loop-is_empty (frame ∷ frames) subs =
    offer_loop-is_empty frames
      (map (λ (sub : FrameSubscription). (offer sub (as_frame frame)).0) subs)
    ∙ map-is_empty subs
  where
    map-is_empty :
        (ss : List FrameSubscription)
        → is_empty (map (λ (sub : FrameSubscription). (offer sub (as_frame frame)).0) ss)
          ≡ is_empty ss
    map-is_empty [] = refl
    map-is_empty (s ∷ ss) = refl

module _ {R : Type 0} where
  enqueue_all-IsSame : (xs : List Bytes) (d : Destination R) → IsSame d (enqueue_all xs d)
  unfolding enqueue_all
  enqueue_all-IsSame [] d = (refl, refl)
  enqueue_all-IsSame (x ∷ xs) d =
      let (name, filter) = enqueue-IsSame d x in
      let (name', filter') = enqueue_all-IsSame xs (enqueue d x).0 in
      (name' ∙ name, filter' ∙ filter)

  pub deliver_raw-IsSame : (bytes : Bytes) (d : Destination R) → IsSame d (deliver_raw bytes d)
  unfolding deliver_raw
  deliver_raw-IsSame bytes d = ground (arith, enqueue-IsSame d bytes)

  pub deliver_filtered-IsSame :
      (bytes : Bytes) (frames : List Parsed) (d : Destination R)
      → IsSame d (deliver_filtered bytes frames d)
  unfolding deliver_filtered add_filtered
  deliver_filtered-IsSame bytes frames d =
      let accepted = filter_frames d.filter frames in
      let others = length frames - length accepted in
      ground (arith, enqueue-IsSame d bytes, enqueue_all-IsSame accepted (add_filtered others d))

  pub subscribers_kept :
      (now : ℕ) (bytes : Bytes) (h : BroadcastHub R)
      → is_empty (broadcast now bytes h).frame_subscribers ≡ is_empty h.frame_subscribers
  unfolding broadcast distribute_raw distribute_filtered
  subscribers_kept now bytes h = elim (Bool-cases h.any_needs_parsing) [
    | inl parsing ↦ simp parsing (offer_loop-is_empty _ h.frame_subscribers)
    | inr raw ↦ simp raw refl
  ]

  -- The watchdog counts and warns, and touches nothing else.
  pub watchdog_kept :
      (now : ℕ) (h : BroadcastHub R)
      → let h' = check_no_data_watchdog now h in
        (h'.destinations ≡ h.destinations)
        × (h'.frame_subscribers ≡ h.frame_subscribers)
        × (h'.any_needs_parsing ≡ h.any_needs_parsing)
        × (h'.frame_buffer ≡ h.frame_buffer)
  unfolding check_no_data_watchdog warn_after emit
  watchdog_kept now h = ground arith
