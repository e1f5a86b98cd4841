-- ===== src/Destination/Restart.antt =====
-- Stopping a destination of src/sp_rtk_base_relay/core/destinations/base_destination.py while its
-- thread is not waiting at the queue, and starting it again.
mod Tests
use sp_rtk_base_relay.Prelude.{ℕ, ◌≡◌, refl, ◌∙◌, Bool, true, false, none, [], ◌∷◌, arith}
use sp_rtk_base_relay.Queue.{Queue, put_nowait, get_nowait, get_items}
use sp_rtk_base_relay.Destination.{
  Remote, Item, Destination, enqueue, start, first_pill, drop_first, last_pill, or_full,
  stop_signal, pill, taken, take_item, run_round, after_take, stop_finish, stop, init,
}

-- The thread is sending, so that the loop's test ends it and it takes nothing more.
pub stopped_while_sending : {R : Type 0} → Remote R → Destination R → Destination R
stopped_while_sending ops d = stop ops (λ joined. joined) d

-- A destination that runs with an empty queue is stopped while its thread is sending, and started
-- again: the start launches a thread, whose first round takes the poison pill of that stop and ends
-- the thread, while the destination counts as running; a further start launches no other.
pub restart-pill :
    {R : Type 0} (ops : Remote R) (now : ℕ) (d : Destination R)
    → d.running ≡ true
    → d.queue.items ≡ []
    → let (started, launched) = start (stopped_while_sending ops d) in
      let (after, goes_on) = run_round ops now started in
      (launched ≡ true) × (goes_on ≡ false) × (after.running ≡ true) × ((start after).1 ≡ false)
unfolding stopped_while_sending stop stop_signal first_pill drop_first last_pill start run_round
    after_take take_item taken stop_finish put_nowait get_nowait get_items
restart-pill ops now d on empty = ground (arith, on, empty)
