-- ===== src/Hub/Broadcast/Announced.antt =====
-- What the calls of the hub of src/sp_rtk_base_relay/core/broadcast_hub.py between start() and
-- stop() put on the event bus.
use sp_rtk_base_relay.Prelude.{
  ℕ, ◌≡◌, refl, ◌∙◌, subst, sym, inl, inr, String, Bool, not, ◌&&◌, ◌||◌, Option, none, some, [],
  ◌∷◌, ◌++◌, ◌==◌, ◌+◌, ◌-◌, leb, length, if◌then◌else◌, All, All-append, Option-cases, by_branches,
}
use sp_rtk_base_relay.Rtcm.{Bytes}
use sp_rtk_base_relay.Filter.{is_empty}
use sp_rtk_base_relay.Destination.{Destination, Remote}
use sp_rtk_base_relay.Destination
use sp_rtk_base_relay.Subscription.{FrameSubscription}
use sp_rtk_base_relay.Hub.{
  BroadcastHub, HubEvent, destination_added, destination_removed, no_data_warning, input_connected,
  input_disconnected, input_reconnecting, input_reconnected, hub_started, hub_stopped, emit,
  any_filters, recalculate_needs_parsing, get_in, pop_named, add_destination, remove_destination,
  start_destination, stop_destination,
}
use sp_rtk_base_relay.Hub.Subscribers.{
  pop_subscriber, detach, close_subscription, remove_frame_subscriber, add_frame_subscriber,
}
use sp_rtk_base_relay.Hub.Broadcast.{
  broadcast, distribute_raw, distribute_filtered, warn_after, check_no_data_watchdog,
}

-- An event that neither starts nor ends a run.
abbrev pub IsMinor : HubEvent → Type 0
IsMinor (destination_added name kind) = Unit
IsMinor (destination_removed name) = Unit
IsMinor (no_data_warning elapsed warnings) = Unit
IsMinor (input_disconnected kind) = Unit
IsMinor (input_reconnecting attempt) = Unit
IsMinor (input_reconnected kind attempt) = Unit
IsMinor (input_connected kind) = ⊥
IsMinor (hub_started names) = ⊥
IsMinor hub_stopped = ⊥

-- A call within a run: the hub runs as before, and what it emits is minor.
abbrev pub IsWithin : {R : Type 0} → BroadcastHub R → BroadcastHub R → Type 0
IsWithin h h' = (h'.running ≡ h.running) × (All IsMinor h.emitted → All IsMinor h'.emitted)

abbrev pub IsAddedWithin : {R : Type 0} → BroadcastHub R → Option (BroadcastHub R) → Type 0
IsAddedWithin h none = Unit
IsAddedWithin h (some h') = IsWithin h h'

module _ {R : Type 0} where
  emit-IsWithin :
      (h : BroadcastHub R) (event : HubEvent) → IsMinor event → IsWithin h (emit h event)
  unfolding emit
  emit-IsWithin h event minor =
      (refl, λ minors. All-append IsMinor h.emitted (event ∷ []) minors (minor, tt))

  pub recalculate_within :
      (h : BroadcastHub R)
      → let h' = recalculate_needs_parsing h in (h'.running ≡ h.running) × (h'.emitted ≡ h.emitted)
  unfolding recalculate_needs_parsing
  recalculate_within h =
      by_branches (λ (h' : BroadcastHub R). (h'.running ≡ h.running) × (h'.emitted ≡ h.emitted))
        (h.any_needs_parsing
          && not (not (is_empty h.frame_subscribers) || any_filters h.destinations))
        (λ on. (refl, refl)) (λ off. (refl, refl))

  recalculated-IsWithin : (h : BroadcastHub R) → IsWithin h (recalculate_needs_parsing h)
  recalculated-IsWithin h =
      let (running, emitted) = recalculate_within h in (running, subst (All IsMinor) (sym emitted))

  announced-IsWithin :
      (h : BroadcastHub R) (event : HubEvent)
      → IsMinor event
      → IsWithin h (emit (recalculate_needs_parsing h) event)
  announced-IsWithin h event minor =
      let (running, emitted) = recalculated-IsWithin h in
      let (running', emitted') = emit-IsWithin (recalculate_needs_parsing h) event minor in
      (running' ∙ running, λ minors. emitted' (emitted minors))

  pub remove_within :
      (h : BroadcastHub R) (key : ℕ)
      → let h' = remove_frame_subscriber h key in
        (h'.running ≡ h.running) × (h'.emitted ≡ h.emitted)
  unfolding remove_frame_subscriber detach
  remove_within h key = elim (Option-cases (pop_subscriber h.frame_subscribers key)) [
    | inl e ↦ rw e (recalculate_within h)
    | inr (found, e) ↦ rw e (recalculate_within _)
  ]

  pub add-IsAddedWithin :
      (h : BroadcastHub R) (d : Destination R) → IsAddedWithin h (add_destination h d)
  unfolding add_destination
  add-IsAddedWithin h d = elim (Option-cases (get_in h.destinations d.name)) [
    | inr (existing, e) ↦ rw (e, add_destination) tt
    | inl free ↦
        let d' = if h.running then (Destination.start d).0 else d in
        rw (free, add_destination)
          (announced-IsWithin (record h { destinations = h.destinations ++ d' ∷ [] })
            (destination_added d.name d.destination_type) tt)
  ]

  pub start_destination-IsWithin :
      (h : BroadcastHub R) (name : String) → IsWithin h (start_destination h name).0
  unfolding start_destination
  start_destination-IsWithin h name = (refl, λ minors. minors)

  pub subscribe-IsWithin :
      (h : BroadcastHub R) (s : FrameSubscription) → IsWithin h (add_frame_subscriber h s).0
  unfolding add_frame_subscriber
  subscribe-IsWithin h s =
      by_branches (λ (r : BroadcastHub R × FrameSubscription × Bool). IsWithin h r.0) h.running
        (λ on.
          recalculated-IsWithin (record h { frame_subscribers = h.frame_subscribers ++ s ∷ [] }))
        (λ off.
          let (running, emitted) = remove_within h s.key in
          (running, subst (All IsMinor) (sym emitted)))

  module _ (ops : Remote R) (joined : Destination R → Destination R) where
    pub stop_destination-IsWithin :
        (h : BroadcastHub R) (name : String) → IsWithin h (stop_destination ops joined h name).0
    unfolding stop_destination
    stop_destination-IsWithin h name = (refl, λ minors. minors)

    pub remove_destination-IsWithin :
        (h : BroadcastHub R) (name : String) → IsWithin h (remove_destination ops joined h name).0
    unfolding remove_destination
    remove_destination-IsWithin h name = elim (Option-cases (pop_named h.destinations name)) [
      | inl e ↦ rw (e, remove_destination) (refl, λ minors. minors)
      | inr ((found, others), e) ↦
          rw (e, remove_destination)
            (announced-IsWithin (record h { destinations = others }) (destination_removed name) tt)
    ]

  pub broadcast-IsWithin :
      (now : ℕ) (bytes : Bytes) (h : BroadcastHub R) → IsWithin h (broadcast now bytes h)
  unfolding broadcast distribute_raw distribute_filtered
  broadcast-IsWithin now bytes h =
      let received : BroadcastHub R = record h {
        stats = record h.stats {
          bytes_received = h.stats.bytes_received + length bytes;
          chunks_received = h.stats.chunks_received + 1;
          last_data_time = now;
        };
      } in
      by_branches (IsWithin h) h.any_needs_parsing {x = distribute_filtered bytes received}
        {y = distribute_raw bytes received} (λ parsing. (refl, λ minors. minors))
        (λ raw. (refl, λ minors. minors))

  warn_after-IsWithin : (elapsed : ℕ) (h : BroadcastHub R) → IsWithin h (warn_after elapsed h)
  unfolding warn_after
  warn_after-IsWithin elapsed h =
      by_branches (IsWithin h) (leb 30 elapsed) (λ long. emit-IsWithin _ _ tt)
        (λ short. (refl, λ minors. minors))

  pub watchdog-IsWithin : (now : ℕ) (h : BroadcastHub R) → IsWithin h (check_no_data_watchdog now h)
  unfolding check_no_data_watchdog
  watchdog-IsWithin now h =
      by_branches (IsWithin h) (h.stats.last_data_time == 0)
        (λ none_yet. elim (Option-cases h.stats.started_at) [
          | inl e ↦ rw e (refl, λ minors. minors)
          | inr (started_at, e) ↦ rw e (warn_after-IsWithin (now - started_at) h)
        ])
        (λ some_data. warn_after-IsWithin (now - h.stats.last_data_time) h)

  pub close-IsWithin : (key : ℕ) (h : BroadcastHub R) → IsWithin h (close_subscription h key).0
  unfolding close_subscription
  close-IsWithin key h = elim (Option-cases (pop_subscriber h.frame_subscribers key)) [
    | inl e ↦ rw (e, close_subscription) (refl, λ minors. minors)
    | inr (found, e) ↦
        let (running, emitted) = remove_within h key in
        rw (e, close_subscription) (running, subst (All IsMinor) (sym emitted))
  ]
