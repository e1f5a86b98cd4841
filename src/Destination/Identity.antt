-- ===== src/Destination/Identity.antt =====
-- What no step of a destination of src/sp_rtk_base_relay/core/destinations/base_destination.py
-- changes.
use sp_rtk_base_relay.Prelude.{ℕ, ◌≡◌, refl, ◌∙◌, List, [], ◌∷◌, arith, Bool-cases, inl, inr}
use sp_rtk_base_relay.Rtcm.{Bytes}
use sp_rtk_base_relay.Queue.{get_nowait, get_items}
use sp_rtk_base_relay.Destination.{
  Destination, Remote, enqueue, start, stop_signal, first_pill, drop_first, last_pill, stop_finish,
  stop, take_item, ensure_connected, attempt_connect, begin_attempt, judge_attempt, send_chunk,
  connect_succeeded, clear_queue, transmit, after_take, run_round, run_loop, Taken, not_running,
  timed_out, pill, item,
}

module _ {R : Type 0} where
  -- The same name and filter.
  abbrev pub IsSame : Destination R → Destination R → Type 0
  IsSame d d' = (d'.name ≡ d.name) × (d'.filter ≡ d.filter)

  trans_IsSame : (d d' d'' : Destination R) → IsSame d d' → IsSame d' d'' → IsSame d d''
  trans_IsSame d d' d'' (name, filter) (name', filter') = (name' ∙ name, filter' ∙ filter)

  pub enqueue-IsSame : (d : Destination R) (bytes : Bytes) → IsSame d (enqueue d bytes).0
  unfolding enqueue
  enqueue-IsSame d bytes = ground arith

  pub start-IsSame : (d : Destination R) → IsSame d (start d).0
  unfolding start
  start-IsSame d = ground arith

module _ {R : Type 0} (ops : Remote R) where
  take_item-IsSame : (d : Destination R) → IsSame d (take_item d).1
  unfolding take_item
  take_item-IsSame d = ground arith

  attempt_connect-IsSame : (now : ℕ) (d : Destination R) → IsSame d (attempt_connect ops now d)
  unfolding attempt_connect begin_attempt judge_attempt connect_succeeded clear_queue
  attempt_connect-IsSame now d = ground arith

  ensure_connected-IsSame : (now : ℕ) (d : Destination R) → IsSame d (ensure_connected ops now d)
  unfolding ensure_connected
  ensure_connected-IsSame now d = ground (arith, attempt_connect-IsSame now d)

  transmit-IsSame :
      (now : ℕ) (bytes : Bytes) (d : Destination R) → IsSame d (transmit ops now bytes d)
  unfolding transmit send_chunk
  transmit-IsSame now bytes d = ground arith

  after_take-IsSame :
      (now : ℕ) (got : Taken) (d : Destination R) → IsSame d (after_take ops now got d).0
  unfolding after_take
  after_take-IsSame now not_running d = (refl, refl)
  after_take-IsSame now timed_out d = (refl, refl)
  after_take-IsSame now pill d = (refl, refl)
  after_take-IsSame now (item bytes) d =
      let ready = ensure_connected ops now d in
      trans_IsSame d ready (transmit ops now bytes ready) (ensure_connected-IsSame now d)
        (transmit-IsSame now bytes ready)

  run_round-IsSame : (now : ℕ) (d : Destination R) → IsSame d (run_round ops now d).0
  unfolding run_round
  run_round-IsSame now d =
      let (got, d') = take_item d in
      trans_IsSame d d' (after_take ops now got d').0 (take_item-IsSame d)
        (after_take-IsSame now got d')

  run_loop-IsSame : (times : List ℕ) (d : Destination R) → IsSame d (run_loop ops times d)
  unfolding run_loop
  run_loop-IsSame [] d = (refl, refl)
  run_loop-IsSame (now ∷ times) d =
      let (d', goes_on) = run_round ops now d in
      elim (Bool-cases goes_on) [
        | inl on ↦ rw on (
            trans_IsSame d d' (run_loop ops times d') (run_round-IsSame now d)
              (run_loop-IsSame times d'))
        | inr over ↦ rw over (run_round-IsSame now d)
      ]

  stop_signal-IsSame : (d : Destination R) → IsSame d (stop_signal d)
  unfolding stop_signal first_pill drop_first last_pill
  stop_signal-IsSame d = ground arith

  pub stop-IsSame :
      (times : List ℕ) (d : Destination R) → IsSame d (stop ops (run_loop ops times) d)
  unfolding stop stop_finish
  stop-IsSame times d =
      let signalled = stop_signal d in
      elim (Bool-cases d.running) [
        | inl on ↦ simp on (
            trans_IsSame d signalled (run_loop ops times signalled) (stop_signal-IsSame d)
              (run_loop-IsSame times signalled))
        | inr off ↦ simp off (refl, refl)
      ]

-- What the thread and the calls of other threads leave alone: the subclass's part, and the statistics
-- but for the dropped chunks.
pub take_item_kept :
    {R : Type 0} (d : Destination R)
    → ((take_item d).1.stats ≡ d.stats) × ((take_item d).1.remote ≡ d.remote)
unfolding take_item get_nowait get_items
take_item_kept d = ground arith

pub signals_kept :
    {R : Type 0} (d : Destination R)
    → ((stop_signal d).stats ≡ d.stats)
      × ((stop_signal d).remote ≡ d.remote)
      × ((start d).0.stats ≡ d.stats)
      × ((start d).0.remote ≡ d.remote)
unfolding stop_signal first_pill drop_first last_pill start
signals_kept d = ground arith
