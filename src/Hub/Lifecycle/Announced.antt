-- ===== src/Hub/Lifecycle/Announced.antt =====
-- What start() and stop() of the hub of src/sp_rtk_base_relay/core/broadcast_hub.py announce.
use sp_rtk_base_relay.Prelude.{
  ◌≡◌, refl, ◌∙◌, ap, ap₂, String, ℕ, true, false, List, [], if◌then◌else◌, ◌∷◌, ◌++◌, map,
  append_assoc, by_branches, arith,
}
use sp_rtk_base_relay.Destination.{Destination, Remote}
use sp_rtk_base_relay.Destination
use sp_rtk_base_relay.Destination.Identity.{start-IsSame}
use sp_rtk_base_relay.Subscription.{FrameSubscription, close}
use sp_rtk_base_relay.Hub.{
  BroadcastHub, new_hub, emit, input_connected, hub_started, hub_stopped, get_destination_names,
}
use sp_rtk_base_relay.Hub.Subscribers.{remove_frame_subscriber, end_loop}
use sp_rtk_base_relay.Hub.Broadcast.Announced.{remove_within}
use sp_rtk_base_relay.Hub.Input.{InputSource, InputSide, Attempt, accepted, refused, raised}
use sp_rtk_base_relay.Hub.Lifecycle.{
  Started, was_running, connection_failed, started, begin_run, first_attempt, start_attempted,
  start, end_run, stop,
}

pub new_hub_idle :
    {R : Type 0} (ds : List (Destination R))
    → ((new_hub ds).running ≡ false)
      × ((new_hub ds).emitted ≡ [])
      × (get_destination_names (new_hub ds) ≡ map (λ (d : Destination R). d.name) ds)
unfolding new_hub get_destination_names
new_hub_idle ds = (refl, refl, refl)

module _ {R : Type 0} {I : Type 0} (source : InputSource I) where
  -- How an idle hub is after start(): running with two events more, or as it was.
  abbrev pub IsBegun : BroadcastHub R → BroadcastHub R → Started → Type 0
  IsBegun h h' started =
      (h'.running ≡ true)
      × (h'.emitted
          ≡ h.emitted
            ++ input_connected source.source_type ∷ hub_started (get_destination_names h) ∷ [])
      × (get_destination_names h' ≡ get_destination_names h)
  IsBegun h h' connection_failed = h' ≡ h
  IsBegun h h' was_running = ⊥

  names_started :
      (ds : List (Destination R))
      → map
          (λ (d : Destination R). d.name)
          (map (λ (d : Destination R). (Destination.start d).0) ds)
        ≡ map (λ (d : Destination R). d.name) ds
  names_started [] = refl
  names_started (d ∷ ds) =
      ap₂ (λ (n : String) (ns : List String). n ∷ ns) (start-IsSame d).0 (names_started ds)

  begin_run-IsBegun : (now : ℕ) (h : BroadcastHub R) → IsBegun h (begin_run source now h) started
  unfolding begin_run emit get_destination_names
  begin_run-IsBegun now h =
      let same = names_started h.destinations in
      (
        refl,
        append_assoc h.emitted (input_connected source.source_type ∷ []) _
            ∙ ap (λ names. h.emitted ++ input_connected source.source_type ∷ hub_started names ∷ [])
                same,
        same,
      )

  pub start-IsBegun :
      (otherwise : String) (now : ℕ) (h : BroadcastHub R) (s : InputSide I)
      → h.running ≡ false
      → let (h', s', how) = start source otherwise now h s in IsBegun h h' how
  unfolding start first_attempt start_attempted
  start-IsBegun otherwise now h s idle =
      by_branches (λ (r : BroadcastHub R × InputSide I × Started). IsBegun h r.0 r.2) h.running
        (λ on. absurd (ground (arith, on, idle)))
        (λ off. attempted (first_attempt source s).0 (first_attempt source s).1)
    where
      attempted :
          (attempt : Attempt) (s' : InputSide I)
          → let (h', s'', how) = start_attempted source otherwise now attempt s' h in
            IsBegun h h' how
      attempted accepted s' = begin_run-IsBegun now h
      attempted refused s' = refl
      attempted (raised typed text) s' = refl

  module _ (ops : Remote R) (joined : Destination R → Destination R) where
    end_loop-emitted :
        (subs : List FrameSubscription) (h : BroadcastHub R)
        → (end_loop subs h).0.emitted ≡ h.emitted
    unfolding end_loop
    end_loop-emitted [] h = refl
    end_loop-emitted (s ∷ subs) h =
        end_loop-emitted subs (if (close s).1 then remove_frame_subscriber h s.key else h)
        ∙ by_branches (λ (h' : BroadcastHub R). h'.emitted ≡ h.emitted) (close s).1
            (λ called. (remove_within h s.key).1) (λ closed. refl)

    pub stop-emitted :
        (h : BroadcastHub R) (s : InputSide I)
        → h.running ≡ true
        → (stop source ops joined h s).0.emitted ≡ h.emitted ++ hub_stopped ∷ []
    unfolding stop end_run emit
    stop-emitted h s on =
        by_branches
          (λ (r : BroadcastHub R × InputSide I × List FrameSubscription).
            r.0.emitted ≡ h.emitted ++ hub_stopped ∷ [])
          h.running
          (λ running. ap (λ l. l ++ hub_stopped ∷ []) (end_loop-emitted h.frame_subscribers _))
          (λ off. absurd (ground (arith, on, off)))
