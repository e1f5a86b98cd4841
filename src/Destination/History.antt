-- ===== src/Destination/History.antt =====
-- A destination of src/sp_rtk_base_relay/core/destinations/base_destination.py over time: other
-- threads offer chunks and stop or start it, between any two parts of its loop.
pub mod Parts
pub mod Order
mod Tests
use mathlib.Core.List.{Sublist, sublist-append_right}
use mathlib.Core.List.Sublist
use sp_rtk_base_relay.Prelude.{
  ℕ, zero, suc, ◌+◌, ◌-◌, ◌≤◌, ◌<◌, ◌≡◌, refl, ◌∙◌, ap, sym, subst, ◌⊎◌, inl, inr, String, Bool,
  true, false, Option, none, some, List, [], ◌∷◌, ◌++◌, length, length-append, append_assoc,
  append-nil, arith, Bool-cases, if◌then◌else◌,
}
use sp_rtk_base_relay.Rtcm.{Bytes}
use sp_rtk_base_relay.Queue.{Queue, is_full, put_nowait, get_nowait, get_items, qsize}
use sp_rtk_base_relay.Queue.Laws.{IsBounded}
use sp_rtk_base_relay.Destination.{
  Remote, Item, Destination, DestinationStats, no_stats, enqueue, clear_queue, start, first_pill,
  drop_first, last_pill, Taken, not_running, timed_out, pill, item, taken, take_item,
  connect_succeeded, attempt_connect, ensure_connected, send_chunk, add_dropped, stop_finish,
}

-- The chunks among the items of a queue.
pub payloads : List Item → List Bytes
payloads [] = []
payloads (none ∷ items) = payloads items
payloads (some bytes ∷ items) = bytes ∷ payloads items

pub total : List Bytes → ℕ
total [] = 0
total (bytes ∷ rest) = length bytes + total rest

abbrev pub held_list : Option Bytes → List Bytes
held_list none = []
held_list (some bytes) = bytes ∷ []

-- A destination, the chunk that its thread holds between two parts of a round, whether it is past the
-- tests of the connection with it, and the history: how many chunks were offered, those that were
-- accepted, those that were sent, and how many were given up for want of a connection; and how many
-- threads are in stop() and found the queue full, or have made room in it.
pub record History (R : Type 0) : Type 0 where
  pub dest : Destination R
  pub held : Option Bytes
  pub cleared : Bool
  pub offers : ℕ
  pub accepted : List Bytes
  pub delivered : List Bytes
  pub given_up : ℕ
  pub full_stops : ℕ
  pub roomy_stops : ℕ

pub data Event : Type 0 where
  offer : Bytes → Event
  take : Event
  prepare : ℕ → Event
  send : ℕ → Event
  signal_stop : Event
  stop_room : Event
  stop_pill : Event
  finish_stop : Event
  restart : Event

module _ {R : Type 0} (ops : Remote R) where
  offered : History R → Bytes → Bool → History R
  offered h bytes true = record h { offers = h.offers + 1; accepted = h.accepted ++ bytes ∷ [] }
  offered h bytes false = record h { offers = h.offers + 1 }

  pub keep_taken : Taken → Option Bytes
  keep_taken (item bytes) = some bytes
  keep_taken got = none

  -- The thread takes a chunk only when it holds none.
  took : Option Bytes → History R → History R
  took none h =
      let (got, d) = take_item h.dest in
      record h { dest = d; held = keep_taken got; cleared = false }
  took (some bytes) h = h

  -- The tests of the connection, with the attempt if there is none.
  prepared : ℕ → Option Bytes → History R → History R
  prepared now none h = h
  prepared now (some bytes) h =
      let d = ensure_connected ops now h.dest in
      if h.cleared
      then h
      else if ops.is_connected d.remote
      then record h { dest = d; cleared = true }
      else record h { dest = add_dropped d; held = none; given_up = h.given_up + 1 }

  -- The send tests nothing.
  sent : ℕ → Option Bytes → History R → History R
  sent now none h = h
  sent now (some bytes) h =
      let dest' = send_chunk ops now bytes h.dest in
      let tried = elim (ops.send_data bytes h.dest.remote).0 as (λ x. History R) [
        | none ↦ record h { dest = dest'; held = none; delivered = h.delivered ++ bytes ∷ [] }
        | some e ↦ record h { dest = dest'; held = none }
      ] in
      if h.cleared then tried else h

  roomed : ℕ → History R → History R
  roomed zero h = h
  roomed (suc full_stops) h =
      let (d, room) = drop_first h.dest in
      record h {
        dest = d;
        full_stops = full_stops;
        roomy_stops = if room then h.roomy_stops + 1 else h.roomy_stops;
      }

  pilled : ℕ → History R → History R
  pilled zero h = h
  pilled (suc roomy_stops) h = elim (last_pill h.dest) [
    | none ↦ record h { roomy_stops = roomy_stops }
    | some d ↦ record h { dest = d; roomy_stops = roomy_stops }
  ]

  pub step : History R → Event → History R
  step h (offer bytes) =
      let (d, ok) = enqueue h.dest bytes in offered (record h { dest = d }) bytes ok
  step h take = took h.held h
  step h (prepare now) = prepared now h.held h
  step h (send now) = sent now h.held h
  step h signal_stop =
      let (d, full) = first_pill h.dest in
      record h { dest = d; full_stops = if full then h.full_stops + 1 else h.full_stops }
  step h stop_room = roomed h.full_stops h
  step h stop_pill = pilled h.roomy_stops h
  step h finish_stop = record h { dest = stop_finish ops h.dest }
  step h restart = record h { dest = (start h.dest).0 }

  pub run : History R → List Event → History R
  run h [] = h
  run h (e ∷ events) = run (step h e) events

  -- What is sent, held and queued is what was accepted, in its order, with some of it left out;
  -- the counters count it.
  pub record IsAccounted (h : History R) : Type 0 where
    pub order :
        Sublist (h.delivered ++ (held_list h.held ++ payloads h.dest.queue.items)) h.accepted
    pub sent_count : h.dest.stats.messages_sent ≡ length h.delivered
    pub sent_bytes : h.dest.stats.bytes_sent ≡ total h.delivered
    pub dropped : h.dest.stats.messages_dropped + length h.accepted ≡ h.offers + h.given_up
    pub attempts :
        h.dest.stats.connection_attempts
        ≡ h.dest.stats.successful_connections + h.dest.stats.connection_failures
    pub bounded : IsBounded h.dest.queue
