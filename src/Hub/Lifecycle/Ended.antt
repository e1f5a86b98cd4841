-- ===== src/Hub/Lifecycle/Ended.antt =====
-- What stop() of src/sp_rtk_base_relay/core/broadcast_hub.py leaves behind.
use sp_rtk_base_relay.Prelude.{
  ◌+◌, ◌≡◌, refl, ◌∙◌, ap, subst, inl, inr, true, false, not, ◌&&◌, ◌||◌, none, some, List, [], ◌∷◌,
  map, All, arith, Bool-cases, ==_iff,
}
use sp_rtk_base_relay.Filter.{is_empty}
use sp_rtk_base_relay.Destination.{Destination, Remote}
use sp_rtk_base_relay.Destination
use sp_rtk_base_relay.Subscription.{FrameSubscription, close}
use sp_rtk_base_relay.Hub.{BroadcastHub, recalculate_needs_parsing, any_filters, emit}
use sp_rtk_base_relay.Hub.Subscribers.{
  pop_subscriber, detach, remove_frame_subscriber, end_loop, sum_dropped, frame_subscriber_drops,
}
use sp_rtk_base_relay.Hub.Input.{InputSource, InputSide}
use sp_rtk_base_relay.Hub.Lifecycle.{end_run, stop}

close_open : (s : FrameSubscription) → s.closed ≡ false → (close s).1 ≡ true
unfolding close
close_open s opened = simp opened refl

pop_first :
    (s : FrameSubscription) (rest : List FrameSubscription)
    → pop_subscriber (s ∷ rest) s.key ≡ some (s, rest)
unfolding pop_subscriber
pop_first s rest = rw ((==_iff s.key s.key).1 refl) refl

module _ {R : Type 0} where
  recalculate_kept :
      (h : BroadcastHub R)
      → let h' = recalculate_needs_parsing h in
        (h'.frame_subscribers ≡ h.frame_subscribers)
        × (h'.removed_subscriber_drops ≡ h.removed_subscriber_drops)
        × (h'.running ≡ h.running)
        × (h'.destinations ≡ h.destinations)
  unfolding recalculate_needs_parsing
  recalculate_kept h =
      let needs = not (is_empty h.frame_subscribers) || any_filters h.destinations in
      elim (Bool-cases (h.any_needs_parsing && not needs)) [
        | inl both ↦ simp both (refl, refl, refl, refl)
        | inr not_both ↦ simp not_both (refl, refl, refl, refl)
      ]

  remove_first :
      (h : BroadcastHub R) (s : FrameSubscription) (rest : List FrameSubscription)
      → h.frame_subscribers ≡ s ∷ rest
      → let h' = remove_frame_subscriber h s.key in
        (h'.frame_subscribers ≡ rest)
        × (h'.removed_subscriber_drops ≡ h.removed_subscriber_drops + s.dropped)
        × (h'.running ≡ h.running)
        × (h'.destinations ≡ h.destinations)
  unfolding remove_frame_subscriber detach
  remove_first h s rest e =
      let popped : pop_subscriber h.frame_subscribers s.key ≡ some (s, rest) =
        ap (λ l. pop_subscriber l s.key) e ∙ pop_first s rest in
      rw popped (recalculate_kept _)

  end_loop_lem :
      (subs : List FrameSubscription) (h : BroadcastHub R)
      → h.frame_subscribers ≡ subs
      → All (λ (s : FrameSubscription). s.closed ≡ false) subs
      → let (h', ended) = end_loop subs h in
        (h'.frame_subscribers ≡ [])
        × (h'.removed_subscriber_drops ≡ h.removed_subscriber_drops + sum_dropped subs)
        × (h'.running ≡ h.running)
        × (h'.destinations ≡ h.destinations)
        × (ended ≡ map (λ (s : FrameSubscription). (close s).0) subs)
  unfolding end_loop sum_dropped
  end_loop_lem [] h e opened = (e, omega arith, refl, refl, refl)
  end_loop_lem (s ∷ rest) h e opened =
      let (subs, drops, running, ds) = remove_first h s rest e in
      let (subs', drops', running', ds', ended) =
        end_loop_lem rest (remove_frame_subscriber h s.key) subs opened.1 in
      rw (close_open s opened.0) (
        subs',
        omega (arith, drops, drops'),
        running' ∙ running,
        ds' ∙ ds,
        ap (λ l. (close s).0 ∷ l) ended,
      )

module _ {R : Type 0} {I : Type 0} (source : InputSource I) (ops : Remote R)
    (joined : Destination R → Destination R) where
  -- The hub, its input and the ended subscriptions after a run.
  pub record IsEnded (h : BroadcastHub R) (s : InputSide I)
      (result : BroadcastHub R × InputSide I × List FrameSubscription) : Type 0 where
    pub halted : result.0.running ≡ false
    pub subscribers : result.0.frame_subscribers ≡ []
    pub buffer : result.0.frame_buffer ≡ []
    pub not_started : result.0.stats.started_at ≡ none
    pub destinations : result.0.destinations ≡ map (Destination.stop ops joined) h.destinations
    pub ended : result.2 ≡ map (λ (sub : FrameSubscription). (close sub).0) h.frame_subscribers
    pub drops : frame_subscriber_drops result.0 ≡ frame_subscriber_drops h
    pub disconnected : result.1.input ≡ source.disconnect s.input

  end_run-IsEnded :
      (h : BroadcastHub R) (s : InputSide I)
      → All (λ (sub : FrameSubscription). sub.closed ≡ false) h.frame_subscribers
      → IsEnded h s (end_run source ops joined h s)
  unfolding end_run emit frame_subscriber_drops sum_dropped
  end_run-IsEnded h s opened =
      let halted : BroadcastHub R = record h {
        running = false;
        destinations = map (Destination.stop ops joined) h.destinations;
      } in
      let (subs, drops, running, ds, ended) = end_loop_lem h.frame_subscribers halted refl opened in
      record {
        halted = running;
        subscribers = subs;
        buffer = refl;
        not_started = refl;
        destinations = ds;
        ended = ended;
        drops = omega (arith, drops, ap sum_dropped subs);
        disconnected = refl;
      }

  running_stop :
      (h : BroadcastHub R) (s : InputSide I)
      → h.running ≡ true
      → end_run source ops joined h s ≡ stop source ops joined h s
  unfolding stop
  running_stop h s on = simp on refl

  -- stop() of a hub that runs and whose subscriptions are open: it no longer runs and has no
  -- subscriber, no part of a frame and no start time; every destination has been stopped and every
  -- subscription closed, in the order of the lists; the frames that subscribers lost are still
  -- counted; and the input source has been disconnected.
  pub stop-IsEnded :
      (h : BroadcastHub R) (s : InputSide I)
      → h.running ≡ true
      → All (λ (sub : FrameSubscription). sub.closed ≡ false) h.frame_subscribers
      → IsEnded h s (stop source ops joined h s)
  stop-IsEnded h s on opened =
      subst (IsEnded h s) (running_stop h s on) (end_run-IsEnded h s opened)
