-- ===== src/Destination/History/Tests.antt =====
-- Runs of a destination of src/sp_rtk_base_relay/core/destinations/base_destination.py whose
-- subclass records what it sends.
use mathlib.Core.List.{nil-sublist}
use sp_rtk_base_relay.Prelude.{◌≡◌, refl, Bool, true, false, none, List, [], ◌∷◌, ◌++◌, arith}
use sp_rtk_base_relay.Rtcm.{Bytes}
use sp_rtk_base_relay.Filter.{pass_all}
use sp_rtk_base_relay.Destination.{
  Remote, init, clear_queue, clear_loop, start, take_item, enqueue, ensure_connected,
  attempt_connect, begin_attempt, judge_attempt, connect_succeeded, send_chunk, first_pill,
  stop_finish, taken,
}
use sp_rtk_base_relay.Destination.History.{
  History, Event, offer, take, prepare, send, signal_stop, finish_stop, restart, payloads, step,
  run, offered, took, keep_taken, prepared, sent, IsAccounted, total,
}
use sp_rtk_base_relay.Destination.History.Order.{run-IsAccounted}

record Link : Type 0 where
  up : Bool
  got : List Bytes

abbrev link : Remote Link
link = record {
  connect = λ l. (none, record l { up = true });
  disconnect = λ l. record l { up = false };
  send_data = λ bytes l. (none, record l { got = l.got ++ bytes ∷ [] });
  is_connected = λ l. l.up;
}

abbrev fresh : History Link
fresh = record {
  dest =
      init "caster" "tcp_server" (record { mode = pass_all; message_ids = [] }) 2
        (record { up = false; got = [] });
  held = none;
  cleared = false;
  offers = 0;
  accepted = [];
  delivered = [];
  given_up = 0;
  full_stops = 0;
  roomy_stops = 0;
}

abbrev events : List Event
events =
    restart
    ∷ offer (1 ∷ [])
    ∷ offer (2 ∷ [])
    ∷ offer (3 ∷ [])
    ∷ take
    ∷ prepare 7
    ∷ send 8
    ∷ offer (4 ∷ [])
    ∷ take
    ∷ prepare 9
    ∷ signal_stop
    ∷ send 9
    ∷ finish_stop
    ∷ []

-- The chunk 2 is cleared from the queue on connecting, and 3 finds no room.
sent_chunks : (run link fresh events).delivered ≡ (1 ∷ []) ∷ (4 ∷ []) ∷ []
unfolding init run step offered took keep_taken prepared sent start enqueue take_item taken
    ensure_connected attempt_connect begin_attempt judge_attempt connect_succeeded clear_queue
    clear_loop send_chunk first_pill stop_finish
sent_chunks = refl

fresh-IsAccounted : IsAccounted link fresh
unfolding payloads total init
fresh-IsAccounted = record {
  order = nil-sublist [];
  sent_count = refl;
  sent_bytes = refl;
  dropped = refl;
  attempts = refl;
  bounded = λ p. omega (arith, p);
}

run-IsAccounted_example : IsAccounted link (run link fresh events)
run-IsAccounted_example = run-IsAccounted link fresh events fresh-IsAccounted
