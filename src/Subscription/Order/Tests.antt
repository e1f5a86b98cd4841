-- ===== src/Subscription/Order/Tests.antt =====
-- Runs of a subscription of src/sp_rtk_base_relay/core/frame_subscription.py.
use sp_rtk_base_relay.Prelude.{ℕ, ◌≡◌, refl, true, none, some, List, [], ◌∷◌, ◌++◌, arith}
use sp_rtk_base_relay.Prelude.Int.{pos}
use sp_rtk_base_relay.Queue.{present, get_nowait, put_nowait}
use sp_rtk_base_relay.Subscription.{
  Frame, open_subscription, wants, offer, get_frame, drain, drain_loop, below_limit, keep_frame,
  count_frame, close, wake,
}
use sp_rtk_base_relay.Subscription.Readings.{
  Reading, Event, offered, read, drained, closing, accept, open_for, count_wanted, receive, step,
  run, IsInOrder,
}
use sp_rtk_base_relay.Subscription.Order.{run-IsInOrder, run_closed}
use sp_rtk_base_relay.Subscription.Order.Drain.{taken_of, left_of, drain_lem}
use sp_rtk_base_relay.Filter.{contains}

abbrev frame : ℕ → ℕ → Frame
frame message_id b = record { message_id = message_id; data_bytes = b ∷ [] }

abbrev fresh : Reading
fresh = record {
  sub = open_subscription 7 (some (pos 1005 ∷ pos 1077 ∷ [])) 2;
  accepted = [];
  got = [];
  wanted = 0;
}

abbrev events : List Event
events =
    offered (frame 1005 1)
    ∷ offered (frame 1087 2)
    ∷ offered (frame 1077 3)
    ∷ offered (frame 1005 4)
    ∷ read
    ∷ offered (frame 1077 5)
    ∷ closing
    ∷ offered (frame 1005 6)
    ∷ drained (some 1)
    ∷ read
    ∷ []

got_frames : (run fresh events).got ≡ frame 1005 1 ∷ frame 1077 3 ∷ frame 1077 5 ∷ []
unfolding open_subscription run step accept open_for count_wanted receive offer wants contains
    get_frame drain drain_loop below_limit keep_frame count_frame close wake get_nowait put_nowait
got_frames = refl

one_dropped : (run fresh events).sub.dropped ≡ 1
unfolding open_subscription run step accept open_for count_wanted receive offer wants contains
    get_frame drain drain_loop below_limit keep_frame count_frame close wake get_nowait put_nowait
one_dropped = refl

fresh-IsInOrder : IsInOrder fresh
unfolding present open_subscription
fresh-IsInOrder = record {
  order = refl;
  all_wanted = tt;
  counted = refl;
  bounded = λ p. omega arith;
}

run-IsInOrder_example : IsInOrder (run fresh events)
run-IsInOrder_example = run-IsInOrder fresh events fresh-IsInOrder

abbrev shut : Reading
shut = record {
  sub = record (open_subscription 7 none 3) {
    closed = true;
    queue = record { items = some (frame 1005 1) ∷ some (frame 1006 2) ∷ none ∷ []; maxsize = 3 };
  };
  accepted = frame 1005 1 ∷ frame 1006 2 ∷ [];
  got = [];
  wanted = 2;
}

abbrev after_close : List Event
after_close = offered (frame 1005 3) ∷ read ∷ closing ∷ []

run_closed_example :
    let r' = run (step (run fresh events) closing) after_close in
    (r'.sub.closed ≡ true)
    × (r'.accepted ≡ (run fresh events).accepted)
    × (r'.got ++ (drain r'.sub none).1 ≡ (run fresh events).accepted)
run_closed_example =
    run_closed (run fresh events) after_close (run-IsInOrder fresh events fresh-IsInOrder)

drain_lem_example :
    let (s', frames) = drain shut.sub (some 1) in
    (frames ≡ taken_of (some 1) 0 (present shut.sub.queue.items))
    × (present s'.queue.items ≡ left_of (some 1) 0 (present shut.sub.queue.items))
    × (s' ≡ record shut.sub { queue = s'.queue })
drain_lem_example = drain_lem shut.sub (some 1)
