-- ===== src/Hub/Consistency/Runs.antt =====
-- Runs of calls of the hub of src/sp_rtk_base_relay/core/broadcast_hub.py.
mod Tests
use sp_rtk_base_relay.Prelude.{
  ℕ, ◌≡◌, refl, ◌∙◌, ap, ap₂, sym, subst, inl, inr, String, Bool, true, false, not, ◌||◌, List, [],
  ◌∷◌, map, Bool-cases, arith, Option, none, some,
}
use sp_rtk_base_relay.Rtcm.{Bytes}
use sp_rtk_base_relay.Framing.{Parsed, parse_frames}
use sp_rtk_base_relay.Filter.{is_empty, requires_parsing, filter_frames}
use sp_rtk_base_relay.Destination.{Destination, Remote, run_loop, enqueue}
use sp_rtk_base_relay.Destination.Identity.{IsSame, enqueue-IsSame}
use sp_rtk_base_relay.Subscription.{FrameSubscription, offer}
use sp_rtk_base_relay.Hub.{
  BroadcastHub, any_filters, add_destination, remove_destination, stop_destination,
  start_destination,
}
use sp_rtk_base_relay.Hub.Subscribers.{
  remove_frame_subscriber, add_frame_subscriber, close_subscription,
}
use sp_rtk_base_relay.Hub.Broadcast.{
  broadcast, check_no_data_watchdog, deliver_raw, deliver_filtered,
}
use sp_rtk_base_relay.Hub.Broadcast.Paths.{broadcast_raw, broadcast_filtered}
use sp_rtk_base_relay.Hub.Broadcast.Kept.{
  deliver_raw-IsSame, deliver_filtered-IsSame, subscribers_kept, watchdog_kept,
}
use sp_rtk_base_relay.Hub.Consistency.{names, IsUnique, IsConsistent}
use sp_rtk_base_relay.Hub.Consistency.Calls.{
  added, add-IsConsistent, start-IsConsistent, stop-IsConsistent, remove-IsConsistent,
  unsubscribe-IsConsistent, subscribe-IsConsistent, close-IsConsistent,
}

-- A call, with the chunk or the times that it needs.
pub data Event (R : Type 0) : Type 0 where
  add : Destination R → Event R
  remove : String → List ℕ → Event R
  stop : String → List ℕ → Event R
  start : String → Event R
  subscribe : FrameSubscription → Event R
  unsubscribe : ℕ → Event R
  close : ℕ → Event R
  chunk : ℕ → Bytes → Event R
  quiet : ℕ → Event R

module _ {R : Type 0} (ops : Remote R) where
  pub step : BroadcastHub R → Event R → BroadcastHub R
  step h (add d) = added h (add_destination h d)
  step h (remove name times) = (remove_destination ops (run_loop ops times) h name).0
  step h (stop name times) = (stop_destination ops (run_loop ops times) h name).0
  step h (start name) = (start_destination h name).0
  step h (subscribe s) = (add_frame_subscriber h s).0
  step h (unsubscribe key) = remove_frame_subscriber h key
  step h (close key) = (close_subscription h key).0
  step h (chunk now bytes) = broadcast now bytes h
  step h (quiet now) = check_no_data_watchdog now h

  pub run : BroadcastHub R → List (Event R) → BroadcastHub R
  run h [] = h
  run h (e ∷ events) = run (step h e) events

module _ {R : Type 0} where
  map-IsSame :
      (f : Destination R → Destination R) (ds : List (Destination R))
      → ((d : Destination R) → IsSame d (f d))
      → (names (map f ds) ≡ names ds) × (any_filters (map f ds) ≡ any_filters ds)
  unfolding any_filters
  map-IsSame f [] same = (refl, refl)
  map-IsSame f (d ∷ ds) same =
      let (later, later') = map-IsSame f ds same in
      (
        ap₂ (λ (n : String) (ns : List String). n ∷ ns) (same d).0 later,
        ap₂ (λ (b : Bool) (b' : Bool). b || b') (ap requires_parsing (same d).1) later',
      )

  module _ (h : BroadcastHub R) (v : IsConsistent h) where
    kept :
        (h' : BroadcastHub R)
        → names h'.destinations ≡ names h.destinations
        → any_filters h'.destinations ≡ any_filters h.destinations
        → is_empty h'.frame_subscribers ≡ is_empty h.frame_subscribers
        → h'.any_needs_parsing ≡ h.any_needs_parsing
        → (h'.any_needs_parsing ≡ false → h'.frame_buffer ≡ [])
        → IsConsistent h'
    kept h' same_names same_filters subscribers flag buffer = record {
      unique = subst IsUnique (sym same_names) v.unique;
      parsing =
          flag
          ∙ v.parsing
          ∙ ap₂ (λ (b : Bool) (b' : Bool). not b || b') (sym subscribers) (sym same_filters);
      buffer = buffer;
    }

    chunk-IsConsistent : (now : ℕ) (bytes : Bytes) → IsConsistent (broadcast now bytes h)
    chunk-IsConsistent now bytes = elim (Bool-cases h.any_needs_parsing) [
      | inl parsing ↦
          let (given, still, left) = broadcast_filtered now bytes h parsing in
          let (frames, frames_left) = parse_frames h.frame_buffer bytes in
          let (same_names, same_filters) =
            map-IsSame (deliver_filtered bytes frames) h.destinations
              (deliver_filtered-IsSame bytes frames) in
          kept (broadcast now bytes h) (ap names given ∙ same_names)
            (ap any_filters given ∙ same_filters) (subscribers_kept now bytes h)
            (still ∙ sym parsing) (λ off. cc (still, off))
      | inr raw ↦
          let (given, still, left) = broadcast_raw now bytes h raw in
          let (same_names, same_filters) =
            map-IsSame (deliver_raw bytes) h.destinations (deliver_raw-IsSame bytes) in
          kept (broadcast now bytes h) (ap names given ∙ same_names)
            (ap any_filters given ∙ same_filters) (subscribers_kept now bytes h) (still ∙ sym raw)
            (λ off. left ∙ v.buffer raw)
    ]

    quiet-IsConsistent : (now : ℕ) → IsConsistent (check_no_data_watchdog now h)
    quiet-IsConsistent now =
        let (destinations, subscribers, flag, buffer) = watchdog_kept now h in
        kept (check_no_data_watchdog now h) (ap names destinations) (ap any_filters destinations)
          (ap is_empty subscribers) flag (λ off. buffer ∙ v.buffer (sym flag ∙ off))

  step-IsConsistent :
      (ops : Remote R) (h : BroadcastHub R) (e : Event R)
      → IsConsistent h
      → IsConsistent (step ops h e)
  unfolding step
  step-IsConsistent ops h (add d) v = add-IsConsistent h v d
  step-IsConsistent ops h (remove name times) v = remove-IsConsistent h v ops times name
  step-IsConsistent ops h (stop name times) v = stop-IsConsistent h v ops times name
  step-IsConsistent ops h (start name) v = start-IsConsistent h v name
  step-IsConsistent ops h (subscribe s) v = subscribe-IsConsistent h v s
  step-IsConsistent ops h (unsubscribe key) v = unsubscribe-IsConsistent h v key
  step-IsConsistent ops h (close key) v = close-IsConsistent h v key
  step-IsConsistent ops h (chunk now bytes) v = chunk-IsConsistent h v now bytes
  step-IsConsistent ops h (quiet now) v = quiet-IsConsistent h v now

  -- A hub of which the following holds keeps it whatever calls come, in any order: no two
  -- destinations of the hub have the same name; the hub delimits frames exactly when it has a frame
  -- subscriber or a destination that filters; and while it does not, it keeps no part of a frame.
  pub run-IsConsistent :
      (ops : Remote R) (h : BroadcastHub R) (events : List (Event R))
      → IsConsistent h
      → IsConsistent (run ops h events)
  unfolding run
  run-IsConsistent ops h [] v = v
  run-IsConsistent ops h (e ∷ events) v =
      run-IsConsistent ops (step ops h e) events (step-IsConsistent ops h e v)
