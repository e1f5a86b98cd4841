-- ===== src/Events/Tests.antt =====
-- Examples of the event bus of src/sp_rtk_base_relay/core/events.py.
use sp_rtk_base_relay.Prelude.{ℕ, ◌≡◌, refl, true, false, some, List, [], ◌∷◌, length, arith}
use sp_rtk_base_relay.Queue.{present, put_nowait, get_nowait}
use sp_rtk_base_relay.Events.{
  RelayEvent, EventBus, new_bus, subscribe, deliver, deliver_all, emit, get_event, drain,
  send_poison_pill, get_recent, ring_append, last_slice,
}
use sp_rtk_base_relay.Events.Replay.{last, asked_for, emit_all, get_recent-last}
use sp_rtk_base_relay.Events.Delivery.{
  nothing, nobody, one_more, Hearing, Turn, emitted, reads, run, turn, read_at, handed, IsFollowed,
  IsComplete, run-IsFollowed, run-IsComplete,
}
use sp_rtk_base_relay.Events.Ending.{holding, kept_events, send_poison_pill-drain}

-- Events with a number as payload.
abbrev event : ℕ → RelayEvent ℕ
event n = record { event_type = "hub.started"; message = "started"; timestamp = n; payload = n }

abbrev three_events : List (RelayEvent ℕ)
three_events = event 1 ∷ event 2 ∷ event 3 ∷ []

recent_two : get_recent 2 (emit_all three_events (new_bus 2 5)) ≡ event 2 ∷ event 3 ∷ []
unfolding get_recent emit_all emit ring_append deliver_all last_slice new_bus
recent_two = refl

recent_one : get_recent 1 (emit_all three_events (new_bus 2 5)) ≡ event 3 ∷ []
unfolding get_recent emit_all emit ring_append deliver_all last_slice new_bus
recent_one = refl

recent_none : get_recent 0 (emit_all three_events (new_bus 2 5)) ≡ event 2 ∷ event 3 ∷ []
unfolding get_recent emit_all emit ring_append deliver_all last_slice new_bus
recent_none = refl

get_recent-last_example :
    let bus = emit_all three_events (new_bus 2 5) in
    (get_recent 0 bus ≡ last (asked_for 0 2) three_events)
    × (bus.total_events_emitted ≡ length three_events)
get_recent-last_example = get_recent-last 2 5 0 three_events

-- Two subscribers with room for two events each.
abbrev two_subscribers : EventBus ℕ
two_subscribers = subscribe 8 (subscribe 7 (new_bus 200 2))

abbrev start_hearing : Hearing ℕ
start_hearing = record { bus = two_subscribers; gots = [] ∷ [] ∷ []; events = [] }

start_hearing-IsFollowed : IsFollowed 0 start_hearing
unfolding subscribe new_bus present
start_hearing-IsFollowed = record {
  total = 0;
  heard = one_more _ _ 0 0 nothing (one_more _ _ 0 0 nothing nobody (omega arith)) (omega arith);
  counted = omega arith;
}

-- The second subscriber reads too late for the third event.
abbrev lossy_turns : List (Turn ℕ)
lossy_turns =
    emitted (event 1) ∷ emitted (event 2) ∷ reads 0 ∷ emitted (event 3) ∷ reads 1 ∷ reads 5 ∷ []

run-IsFollowed_example : IsFollowed 0 (run start_hearing lossy_turns)
run-IsFollowed_example = run-IsFollowed 0 start_hearing lossy_turns start_hearing-IsFollowed

one_dropped : (run start_hearing lossy_turns).bus.total_events_dropped ≡ 1
unfolding run turn read_at emit deliver deliver_all ring_append get_event handed subscribe new_bus
    get_nowait put_nowait
one_dropped = refl

abbrev prompt_turns : List (Turn ℕ)
prompt_turns =
    emitted (event 1) ∷ emitted (event 2) ∷ reads 0 ∷ reads 1 ∷ emitted (event 3) ∷ reads 1 ∷ []

prompt_turns_dropped : (run start_hearing prompt_turns).bus.total_events_dropped ≡ 0
unfolding run turn read_at emit deliver deliver_all ring_append get_event handed subscribe new_bus
    get_nowait put_nowait
prompt_turns_dropped = refl

run-IsComplete_example :
    let h = run start_hearing prompt_turns in IsComplete h.events h.bus.subscribers h.gots
unfolding subscribe new_bus present
run-IsComplete_example =
    run-IsComplete start_hearing prompt_turns start_hearing-IsFollowed prompt_turns_dropped

send_poison_pill-drain_example :
    drain (send_poison_pill (holding 7 2 false (some (event 1) ∷ some (event 2) ∷ [])))
    ≡ (holding 7 2 true [], kept_events 2 (event 1 ∷ event 2 ∷ []))
send_poison_pill-drain_example =
    send_poison_pill-drain 7 2 false (event 1 ∷ event 2 ∷ []) (λ positive. ground arith)

one_kept : kept_events 2 (event 1 ∷ event 2 ∷ []) ≡ event 2 ∷ []
unfolding kept_events
one_kept = refl
