-- ===== src/Hub/Subscribers.antt =====
-- The frame subscribers of the hub of src/sp_rtk_base_relay/core/broadcast_hub.py.
-- close() of a subscription calls the hub's remove_frame_subscriber, as engine.py sets it up.
use sp_rtk_base_relay.Prelude.{
  ℕ, ◌+◌, Bool, true, false, Option, none, some, List, [], ◌∷◌, ◌++◌, length, ◌==◌, if◌then◌else◌,
}
use sp_rtk_base_relay.Subscription.{FrameSubscription, close}
use sp_rtk_base_relay.Hub.{BroadcastHub, recalculate_needs_parsing}

-- The subscriber of that identity taken out of the list.
unfoldable pub pop_subscriber :
    List FrameSubscription → ℕ → Option (FrameSubscription × List FrameSubscription)
pop_subscriber [] key = none
pop_subscriber (s ∷ rest) key =
    let later = pop_subscriber rest key in
    if s.key == key
    then some (s, rest)
    else elim later [ none ↦ none | some (found, others) ↦ some (found, s ∷ others) ]

unfoldable pub detach :
    {R : Type 0}
    → Option (FrameSubscription × List FrameSubscription)
    → BroadcastHub R
    → BroadcastHub R
detach none h = h
detach (some (s, others)) h = record h {
  frame_subscribers = others;
  removed_subscriber_drops = h.removed_subscriber_drops + s.dropped;
}

unfoldable pub remove_frame_subscriber : {R : Type 0} → BroadcastHub R → ℕ → BroadcastHub R
unfolding detach
remove_frame_subscriber h key =
    recalculate_needs_parsing (detach (pop_subscriber h.frame_subscribers key) h)

-- The subscription is closed when it is refused, and its callback finds nothing to remove.
unfoldable pub add_frame_subscriber :
    {R : Type 0} → BroadcastHub R → FrameSubscription → BroadcastHub R × FrameSubscription × Bool
add_frame_subscriber h subscription =
    if h.running
    then (
      recalculate_needs_parsing
          (record h { frame_subscribers = h.frame_subscribers ++ subscription ∷ [] }),
      subscription,
      true,
    )
    else (remove_frame_subscriber h subscription.key, (close subscription).0, false)

-- close() of a subscription that the hub has.
unfoldable pub close_subscription :
    {R : Type 0} → BroadcastHub R → ℕ → BroadcastHub R × Option FrameSubscription
close_subscription h key = elim (pop_subscriber h.frame_subscribers key) [
  | none ↦ (h, none)
  | some (s, others) ↦ (remove_frame_subscriber h key, some (close s).0)
]

unfoldable pub frame_subscriber_count : {R : Type 0} → BroadcastHub R → ℕ
frame_subscriber_count h = length h.frame_subscribers

unfoldable pub sum_dropped : List FrameSubscription → ℕ
sum_dropped [] = 0
sum_dropped (s ∷ rest) = s.dropped + sum_dropped rest

unfoldable pub frame_subscriber_drops : {R : Type 0} → BroadcastHub R → ℕ
frame_subscriber_drops h = h.removed_subscriber_drops + sum_dropped h.frame_subscribers

-- `for sub in ending: sub.close()`, of stop().
unfoldable pub end_loop :
    {R : Type 0} → List FrameSubscription → BroadcastHub R → BroadcastHub R × List FrameSubscription
end_loop [] h = (h, [])
end_loop (s ∷ rest) h =
    let (s', called) = close s in
    let (h', ended) = end_loop rest (if called then remove_frame_subscriber h s.key else h) in
    (h', s' ∷ ended)
