-- ===== src/Events/Ending.antt =====
-- How the subscriptions of src/sp_rtk_base_relay/core/events.py end.
use sp_rtk_base_relay.Prelude.{
  ℕ, zero, suc, ◌+◌, ◌≤◌, ◌<◌, ◌≡◌, refl, ◌∙◌, ap, Bool, true, Option, none, some, List, [], ◌∷◌,
  ◌++◌, map, length, length-append, arith, if◌then◌else◌, drop, ltb, leb, ◌&&◌,
}
use sp_rtk_base_relay.Queue.{put_nowait, is_full, get_nowait, get_items}
use sp_rtk_base_relay.Events.{
  RelayEvent, EventSubscription, send_poison_pill, make_room, drain, drain_loop,
}

module _ {P : Type 0} where
  -- A queue of events without a pill, and the pill behind them.
  abbrev waiting : List (RelayEvent P) → List (Option (RelayEvent P))
  waiting events = map (λ e. some e) events

  length-waiting : (events : List (RelayEvent P)) → length (waiting events) ≡ length events
  length-waiting [] = refl
  length-waiting (e ∷ events) = omega (arith, length-waiting events)

  abbrev pub holding : ℕ → ℕ → Bool → List (Option (RelayEvent P)) → EventSubscription P
  holding key maxsize closed items = record {
    key = key;
    queue = record { items = items; maxsize = maxsize };
    closed = closed;
  }

  -- The reader takes the events up to the pill, and the pill closes the subscription.
  drain_loop_lem :
      (fuel key maxsize : ℕ) (closed : Bool) (events : List (RelayEvent P))
      → length events < fuel
      → drain_loop fuel (holding key maxsize closed (waiting events ++ none ∷ []))
        ≡ (holding key maxsize true [], events)
  unfolding drain_loop get_nowait get_items
  drain_loop_lem zero key maxsize closed events h = absurd (omega (arith, h))
  drain_loop_lem (suc fuel) key maxsize closed [] h = refl
  drain_loop_lem (suc fuel) key maxsize closed (e ∷ events) h =
      rw (drain_loop_lem fuel key maxsize closed events (omega (arith, h))) refl

  drain_lem :
      (key maxsize : ℕ) (closed : Bool) (events : List (RelayEvent P))
      → drain (holding key maxsize closed (waiting events ++ none ∷ []))
        ≡ (holding key maxsize true [], events)
  unfolding drain
  drain_lem key maxsize closed events =
      drain_loop_lem (length (waiting events ++ none ∷ []) + 1) key maxsize closed events
        (omega (arith, length-waiting events, length-append (waiting events) (none ∷ [])))

  -- The events that the reader still gets: a pill for a full queue takes the place of the oldest.
  unfoldable pub kept_events : ℕ → List (RelayEvent P) → List (RelayEvent P)
  kept_events maxsize events =
      drop (if ltb 0 maxsize && leb maxsize (length events) then 1 else 0) events

  pill_lem :
      (key maxsize : ℕ) (closed : Bool) (events : List (RelayEvent P))
      → (0 < maxsize → length events ≤ maxsize)
      → send_poison_pill (holding key maxsize closed (waiting events))
        ≡ holding key maxsize closed (waiting (kept_events maxsize events) ++ none ∷ [])
  unfolding send_poison_pill make_room put_nowait get_nowait get_items is_full kept_events
  pill_lem key maxsize closed [] bounded = ground (arith, bounded)
  pill_lem key maxsize closed (e ∷ events) bounded = ground (arith, bounded, length-waiting events)

  -- The poison pill ends a subscription whatever its queue holds, full or not: a drain then gives the
  -- events that wait, in order, without the oldest if the queue was full, and leaves the
  -- subscription closed.
  pub send_poison_pill-drain :
      (key maxsize : ℕ) (closed : Bool) (events : List (RelayEvent P))
      → (0 < maxsize → length events ≤ maxsize)
      → drain (send_poison_pill (holding key maxsize closed (waiting events)))
        ≡ (holding key maxsize true [], kept_events maxsize events)
  send_poison_pill-drain key maxsize closed events bounded =
      ap drain (pill_lem key maxsize closed events bounded)
      ∙ drain_lem key maxsize closed (kept_events maxsize events)
