-- ===== src/SurePath/Runs.antt =====
-- The Sure-Path destination of src/sp_rtk_base_relay/core/destinations/surepath_destination.py
-- through any events.
use sp_rtk_base_relay.Prelude.{ℕ, ◌≡◌, refl, ◌∙◌, sym, ap, inl, inr, List, [], ◌∷◌}
use sp_rtk_base_relay.Rtcm.{Bytes}
use sp_rtk_base_relay.Client.{ClientConfig, Sending}
use sp_rtk_base_relay.Client.Calls.{IsConfig}
use sp_rtk_base_relay.Destination.{
  Destination, enqueue, take_item, stop_signal, Taken, not_running, timed_out, pill, item,
}
use sp_rtk_base_relay.Destination
use sp_rtk_base_relay.Destination.Loop.{enqueue_cases}
use sp_rtk_base_relay.Destination.Identity.{take_item_kept, signals_kept}
use sp_rtk_base_relay.SurePath.History.{
  History, Phase, free, holding, tried, judged, settled, ready, Event, offer, take, test, judge,
  set_time, test_again, send, heartbeat_lost, signal_stop, finish_stop, restart, kept, take_at,
  send_at, attempt_pending, success_pending, step, run, IsInStep,
}
use sp_rtk_base_relay.SurePath.Prepares.{
  kept-IsInStep, test_at-IsInStep, judge_at-IsInStep, set_time_at-IsInStep, test_again_at-IsInStep,
}
use sp_rtk_base_relay.SurePath.Sends.{disconnected-IsInStep, heartbeat-IsInStep, sent-IsInStep}

module _ (config : ClientConfig) (valid : IsConfig config) where
  module _ (h : History) (v : IsInStep config h) where
    send_at-IsInStep :
        (p : Phase) (now : ℕ) (sending : Sending)
        → h.phase ≡ p
        → IsInStep config (send_at p now sending h)
    unfolding send_at
    send_at-IsInStep (ready bytes) now sending e =
        let freed =
          kept-IsInStep config valid h v h.dest free refl refl (sym (ap success_pending e))
            (sym (ap attempt_pending e)) in
        sent-IsInStep config valid (record h { phase = free }) freed now bytes sending
    send_at-IsInStep free now sending e = v
    send_at-IsInStep (holding bytes) now sending e = v
    send_at-IsInStep (tried bytes raised) now sending e = v
    send_at-IsInStep (judged bytes) now sending e = v
    send_at-IsInStep (settled bytes) now sending e = v

    kept_pending :
        (got : Taken) → (success_pending (kept got) ≡ 0) × (attempt_pending (kept got) ≡ 0)
    kept_pending not_running = (refl, refl)
    kept_pending timed_out = (refl, refl)
    kept_pending pill = (refl, refl)
    kept_pending (item bytes) = (refl, refl)

    take_at-IsInStep : (p : Phase) → h.phase ≡ p → IsInStep config (take_at p h)
    take_at-IsInStep free e =
        let (same_stats, same_remote) = take_item_kept h.dest in
        let (no_success, no_attempt) = kept_pending (take_item h.dest).0 in
        kept-IsInStep config valid h v (take_item h.dest).1 (kept (take_item h.dest).0) same_stats
          same_remote (no_success ∙ sym (ap success_pending e))
          (no_attempt ∙ sym (ap attempt_pending e))
    take_at-IsInStep (holding bytes) e = v
    take_at-IsInStep (tried bytes raised) e = v
    take_at-IsInStep (judged bytes) e = v
    take_at-IsInStep (settled bytes) e = v
    take_at-IsInStep (ready bytes) e = v

    offer-IsInStep :
        (bytes : Bytes) → IsInStep config (record h { dest = (enqueue h.dest bytes).0 })
    offer-IsInStep bytes = elim (enqueue_cases h.dest bytes) [
      | inl (full, e) ↦ rw e (record {
        linked = v.linked;
        within = v.within;
        messages = v.messages;
        bytes = v.bytes;
        attempts = v.attempts;
        successes = v.successes;
        failures = v.failures;
        waits = v.waits;
        punctual = v.punctual;
      })
      | inr (room, e) ↦ rw e (kept-IsInStep config valid h v _ h.phase refl refl refl refl)
    ]

    step-IsInStep : (event : Event) → IsInStep config (step config h event)
    unfolding step
    step-IsInStep (offer bytes) = offer-IsInStep bytes
    step-IsInStep take = take_at-IsInStep h.phase refl
    step-IsInStep (test before after key opening) =
        test_at-IsInStep config valid h v h.phase before after key opening refl
    step-IsInStep (judge now) = judge_at-IsInStep config valid h v h.phase now refl
    step-IsInStep (set_time now) = set_time_at-IsInStep config valid h v h.phase now refl
    step-IsInStep test_again = test_again_at-IsInStep config valid h v h.phase refl
    step-IsInStep (send now sending) = send_at-IsInStep h.phase now sending refl
    step-IsInStep heartbeat_lost = heartbeat-IsInStep config valid h v
    step-IsInStep signal_stop =
        let (same_stats, same_remote, started_stats, started_remote) = signals_kept h.dest in
        kept-IsInStep config valid h v (stop_signal h.dest) h.phase same_stats same_remote refl refl
    step-IsInStep finish_stop =
        disconnected-IsInStep config valid h v h.dest h.dest.remote.client v.linked v.within
          v.messages v.bytes v.attempts v.successes v.failures
    step-IsInStep restart =
        let (same_stats, same_remote, started_stats, started_remote) = signals_kept h.dest in
        kept-IsInStep config valid h v (Destination.start h.dest).0 h.phase started_stats
          started_remote refl refl

  -- A Sure-Path destination with valid settings, from a state of which this holds, as it does of a new
  -- one, and whatever happens to it, in any order, its client's heartbeat thread coming between any two
  -- parts of its own thread's round: the messages, the bytes and the connection attempts that it counts
  -- are those that its client counts; the client's successful connections are those that it counts,
  -- those that were lost before its thread looked, and one that it has not judged yet; each attempt is
  -- a success, a failure or not judged yet; and once an attempt has been found to have failed, no other
  -- is made before the initial delay has passed, unless the destination is disconnected meanwhile.
  pub run-IsInStep :
      (h : History) (events : List Event)
      → IsInStep config h
      → IsInStep config (run config h events)
  unfolding run
  run-IsInStep h [] v = v
  run-IsInStep h (event ∷ events) v =
      run-IsInStep (step config h event) events (step-IsInStep h v event)
