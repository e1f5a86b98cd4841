-- ===== src/Events.antt =====
-- src/sp_rtk_base_relay/core/events.py: the event bus with its replay buffer, and the subscriptions.
-- The payload of an event is of any type. Times are the numbers that time.time() returned. A wait at
-- a queue gives what is there, else `none` for the timeout; `none` among the queue's items is the
-- poison pill. A subscription is found by its `key`, the object's identity; unsubscribing gives the
-- subscription back, as its owner still holds it. The metrics hook does not touch the bus.
pub mod Replay
pub mod Delivery
pub mod Ending
mod Tests
use sp_rtk_base_relay.Prelude.{
  ℕ, zero, suc, ◌+◌, ◌-◌, String, Bool, true, false, Option, none, some, List, [], ◌∷◌, ◌++◌, map,
  length, drop, leb, ltb, ◌==◌, if◌then◌else◌,
}
use sp_rtk_base_relay.Queue.{Queue, new, put_nowait, get_nowait, qsize}

pub record RelayEvent (P : Type 0) : Type 0 where
  pub event_type : String
  pub message : String
  pub timestamp : ℕ
  pub payload : P

pub record EventSubscription (P : Type 0) : Type 0 where
  pub key : ℕ
  pub queue : Queue (Option (RelayEvent P))
  pub closed : Bool

abbrev pub default_ring_buffer_size : ℕ
default_ring_buffer_size = 200

abbrev pub default_subscriber_queue_size : ℕ
default_subscriber_queue_size = 500

pub record EventBus (P : Type 0) : Type 0 where
  pub subscribers : List (EventSubscription P)
  pub ring_buffer : List (RelayEvent P)
  pub ring_buffer_size : ℕ
  pub subscriber_queue_size : ℕ
  pub total_events_emitted : ℕ
  pub total_events_dropped : ℕ

unfoldable pub new_bus : {P : Type 0} → ℕ → ℕ → EventBus P
new_bus ring_buffer_size subscriber_queue_size = record {
  subscribers = [];
  ring_buffer = [];
  ring_buffer_size = ring_buffer_size;
  subscriber_queue_size = subscriber_queue_size;
  total_events_emitted = 0;
  total_events_dropped = 0;
}

module _ {P : Type 0} where
  unfoldable pub pending_count : EventSubscription P → ℕ
  pending_count s = qsize s.queue

  unfoldable pub deliver : EventSubscription P → RelayEvent P → EventSubscription P × Bool
  deliver s event = if s.closed then (s, false) else elim (put_nowait s.queue (some event)) [
    | some q ↦ (record s { queue = q }, true)
    | none ↦ (s, false)
  ]

  -- get_nowait() and put_nowait(None); the queue that was full has an item.
  pub make_room : Queue (Option (RelayEvent P)) → Queue (Option (RelayEvent P))
  make_room q = elim (get_nowait q) [
    | none ↦ q
    | some (item, shorter) ↦ elim (put_nowait shorter none) [ none ↦ shorter | some q' ↦ q' ]
  ]

  pub send_poison_pill : EventSubscription P → EventSubscription P
  unfolding make_room
  send_poison_pill s = elim (put_nowait s.queue none) [
    | some q ↦ record s { queue = q }
    | none ↦ record s { queue = make_room s.queue }
  ]

  -- A pill closes the subscription; an event is handed out.
  abbrev pub take_item :
      EventSubscription P
      → Option (RelayEvent P)
      → Queue (Option (RelayEvent P))
      → EventSubscription P × Option (RelayEvent P)
  take_item s none q = (record s { queue = q; closed = true }, none)
  take_item s (some event) q = (record s { queue = q }, some event)

  pub get_event : EventSubscription P → EventSubscription P × Option (RelayEvent P)
  get_event s =
      let taken = elim (get_nowait s.queue) as (λ x. EventSubscription P × Option (RelayEvent P)) [
        | none ↦ (s, none)
        | some (item, q) ↦ take_item s item q
      ] in
      if s.closed then (s, none) else taken

  pub drain_loop : ℕ → EventSubscription P → EventSubscription P × List (RelayEvent P)
  drain_loop zero s = (s, [])
  drain_loop (suc fuel) s = elim (get_nowait s.queue) [
    | none ↦ (s, [])
    | some (none, q) ↦ (record s { queue = q; closed = true }, [])
    | some (some event, q) ↦
        let (s', events) = drain_loop fuel (record s { queue = q }) in (s', event ∷ events)
  ]

  pub drain : EventSubscription P → EventSubscription P × List (RelayEvent P)
  drain s = drain_loop (qsize s.queue + 1) s

  -- deque(maxlen=n).append
  pub ring_append : ℕ → List (RelayEvent P) → RelayEvent P → List (RelayEvent P)
  ring_append maxlen ring event =
      let longer = ring ++ event ∷ [] in drop (length longer - maxlen) longer

  pub deliver_all : List (EventSubscription P) → RelayEvent P → List (EventSubscription P) × ℕ
  deliver_all [] event = ([], 0)
  deliver_all (s ∷ subs) event =
      let (s', ok) = deliver s event in
      let (subs', dropped) = deliver_all subs event in
      (s' ∷ subs', if ok then dropped else dropped + 1)

  pub emit : RelayEvent P → EventBus P → EventBus P
  unfolding ring_append deliver_all
  emit event bus =
      let (subs, dropped) = deliver_all bus.subscribers event in
      record bus {
        subscribers = subs;
        ring_buffer = ring_append bus.ring_buffer_size bus.ring_buffer event;
        total_events_emitted = bus.total_events_emitted + 1;
        total_events_dropped = bus.total_events_dropped + dropped;
      }

  -- `key` is the new object's identity.
  unfoldable pub subscribe : ℕ → EventBus P → EventBus P
  unfolding new
  subscribe key bus =
      let sub : EventSubscription P = record {
        key = key;
        queue = new bus.subscriber_queue_size;
        closed = false;
      } in
      record bus { subscribers = bus.subscribers ++ sub ∷ [] }

  -- list.remove
  pub remove_sub :
      ℕ → List (EventSubscription P) → Option (EventSubscription P × List (EventSubscription P))
  remove_sub key [] = none
  remove_sub key (s ∷ subs) =
      let later =
        elim (remove_sub key subs)
          as (λ x. Option (EventSubscription P × List (EventSubscription P))) [
            | none ↦ none
            | some (found, rest) ↦ some (found, s ∷ rest)
          ] in
      if s.key == key then some (s, subs) else later

  pub unsubscribe : ℕ → EventBus P → EventBus P × Option (EventSubscription P)
  unfolding remove_sub send_poison_pill
  unsubscribe key bus = elim (remove_sub key bus.subscribers) [
    | none ↦ (bus, none)
    | some (found, rest) ↦ (record bus { subscribers = rest }, some (send_poison_pill found))
  ]

  -- The subscription is marked as closed before the bus puts the pill.
  pub close : EventSubscription P → EventBus P → EventBus P × EventSubscription P
  close s bus =
      let marked : EventSubscription P = record s { closed = true } in
      let left =
        elim (remove_sub s.key bus.subscribers) as (λ x. EventBus P × EventSubscription P) [
          | none ↦ (bus, marked)
          | some (found, rest) ↦ (record bus { subscribers = rest }, send_poison_pill marked)
        ] in
      if s.closed then (bus, s) else left

  -- xs[-count:]
  pub last_slice : ℕ → List (RelayEvent P) → List (RelayEvent P)
  last_slice zero events = events
  last_slice (suc n) events = drop (length events - suc n) events

  pub get_recent : ℕ → EventBus P → List (RelayEvent P)
  unfolding last_slice
  get_recent count bus =
      if leb (length bus.ring_buffer) count
      then bus.ring_buffer
      else last_slice count bus.ring_buffer

  -- The cleared bus and the subscriptions, each with its pill.
  pub clear : EventBus P → EventBus P × List (EventSubscription P)
  unfolding send_poison_pill
  clear bus = (
    record bus { subscribers = []; ring_buffer = [] },
    map (λ s. send_poison_pill s) bus.subscribers,
  )
