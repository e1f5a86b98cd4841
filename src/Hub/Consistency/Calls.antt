-- ===== src/Hub/Consistency/Calls.antt =====
-- Each call of the hub of src/sp_rtk_base_relay/core/broadcast_hub.py keeps it consistent.
use sp_rtk_base_relay.Prelude.{
  ℕ, ◌≡◌, ◌≢◌, ◌∙◌, ap, sym, subst, inl, inr, String, Bool, true, false, not, ◌||◌, Option, none,
  some, List, [], ◌∷◌, ◌++◌, All, Option-cases, arith, if◌then◌else◌,
}
use sp_rtk_base_relay.Filter.{is_empty}
use sp_rtk_base_relay.Destination.{Destination, Remote, run_loop}
use sp_rtk_base_relay.Destination
use sp_rtk_base_relay.Destination.Identity.{start-IsSame, stop-IsSame}
use sp_rtk_base_relay.Subscription.{FrameSubscription}
use sp_rtk_base_relay.Hub.{
  BroadcastHub, HubEvent, any_filters, emit, get_in, pop_named, update_named, add_destination,
  remove_destination, stop_destination, start_destination,
}
use sp_rtk_base_relay.Hub.Subscribers.{
  pop_subscriber, detach, remove_frame_subscriber, add_frame_subscriber, close_subscription,
}
use sp_rtk_base_relay.Hub.Consistency.{names, IsUnique, IsConsistent}
use sp_rtk_base_relay.Hub.Consistency.Steps.{
  IsUnique-snoc, names-append, get_in-none, popped-IsUnique, recalculated, update_named-names,
}

module _ {R : Type 0} (h : BroadcastHub R) (v : IsConsistent h) where
  emit-IsConsistent : (e : HubEvent) → IsConsistent (emit h e)
  unfolding emit
  emit-IsConsistent e = record { unique = v.unique; parsing = v.parsing; buffer = v.buffer }

  with_destinations :
      (ds : List (Destination R))
      → names ds ≡ names h.destinations
      → any_filters ds ≡ any_filters h.destinations
      → IsConsistent (record h { destinations = ds })
  with_destinations ds same_names same_filters = record {
    unique = subst IsUnique (sym same_names) v.unique;
    parsing = v.parsing ∙ ap (λ b. not (is_empty h.frame_subscribers) || b) (sym same_filters);
    buffer = v.buffer;
  }

module _ {R : Type 0} where
  pub added : BroadcastHub R → Option (BroadcastHub R) → BroadcastHub R
  added h none = h
  added h (some h') = h'

module _ {R : Type 0} where
  either :
      (b : Bool) (x y : BroadcastHub R × FrameSubscription × Bool)
      → IsConsistent x.0
      → IsConsistent y.0
      → IsConsistent (if b then x else y).0
  either true x y h h' = h
  either false x y h h' = h'

module _ {R : Type 0} (h : BroadcastHub R) (v : IsConsistent h) where
  pub add-IsConsistent : (d : Destination R) → IsConsistent (added h (add_destination h d))
  unfolding add_destination added
  add-IsConsistent d = elim (Option-cases (get_in h.destinations d.name)) [
    | inr (existing, e) ↦ rw (e, added, add_destination) v
    | inl free ↦
        let d' = if h.running then (Destination.start d).0 else d in
        let same : d'.name ≡ d.name = ground (arith, (start-IsSame d).0) in
        let unique = subst IsUnique (sym (names-append h.destinations d')) (
          IsUnique-snoc (names h.destinations) d'.name v.unique (
            subst (λ n. All (λ m. m ≢ n) (names h.destinations)) (sym same)
              (get_in-none h.destinations d.name free))) in
        rw (free, added, add_destination) (emit-IsConsistent _ (recalculated _ unique v.buffer) _)
  ]

  pub start-IsConsistent : (name : String) → IsConsistent (start_destination h name).0
  unfolding start_destination
  start-IsConsistent name =
      let restart = λ (d : Destination R). (Destination.start (record d { enabled = true })).0 in
      let (names_same, filters_same) =
        update_named-names restart name h.destinations
          (λ d. start-IsSame (record d { enabled = true })) in
      with_destinations h v (update_named restart name h.destinations) names_same filters_same

  module _ (ops : Remote R) (times : List ℕ) where
    pub stop-IsConsistent :
        (name : String) → IsConsistent (stop_destination ops (run_loop ops times) h name).0
    unfolding stop_destination
    stop-IsConsistent name =
        let halt = λ (d : Destination R).
          Destination.stop ops (run_loop ops times) (record d { enabled = false }) in
        let (names_same, filters_same) =
          update_named-names halt name h.destinations
            (λ d. stop-IsSame ops times (record d { enabled = false })) in
        with_destinations h v (update_named halt name h.destinations) names_same filters_same

    pub remove-IsConsistent :
        (name : String) → IsConsistent (remove_destination ops (run_loop ops times) h name).0
    unfolding remove_destination
    remove-IsConsistent name = elim (Option-cases (pop_named h.destinations name)) [
      | inl e ↦ rw (e, remove_destination) v
      | inr ((found, others), e) ↦
          let unique = popped-IsUnique h.destinations name found others e v.unique in
          rw (e, remove_destination)
            (emit-IsConsistent _ (recalculated (record h { destinations = others }) unique v.buffer)
              _)
    ]

  pub unsubscribe-IsConsistent : (key : ℕ) → IsConsistent (remove_frame_subscriber h key)
  unfolding remove_frame_subscriber detach
  unsubscribe-IsConsistent key = elim (Option-cases (pop_subscriber h.frame_subscribers key)) [
    | inl e ↦ rw e (recalculated h v.unique v.buffer)
    | inr (found, e) ↦ rw e (recalculated _ v.unique v.buffer)
  ]

  pub subscribe-IsConsistent : (s : FrameSubscription) → IsConsistent (add_frame_subscriber h s).0
  unfolding add_frame_subscriber
  subscribe-IsConsistent s =
      either h.running _ _
        (recalculated (record h { frame_subscribers = h.frame_subscribers ++ s ∷ [] }) v.unique
          v.buffer)
        (unsubscribe-IsConsistent s.key)

  pub close-IsConsistent : (key : ℕ) → IsConsistent (close_subscription h key).0
  unfolding close_subscription
  close-IsConsistent key = elim (Option-cases (pop_subscriber h.frame_subscribers key)) [
    | inl e ↦ rw (e, close_subscription) v
    | inr (found, e) ↦ rw (e, close_subscription) (unsubscribe-IsConsistent key)
  ]
