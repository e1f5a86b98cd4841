-- ===== src/Subscription/Readings.antt =====
-- A subscription of src/sp_rtk_base_relay/core/frame_subscription.py over time.
use sp_rtk_base_relay.Prelude.{
  ℕ, ◌+◌, ◌≡◌, Bool, true, false, Option, none, some, List, [], ◌∷◌, ◌++◌, length, All,
  if◌then◌else◌,
}
use sp_rtk_base_relay.Queue.{present}
use sp_rtk_base_relay.Queue.Laws.{IsBounded}
use sp_rtk_base_relay.Subscription.{Frame, FrameSubscription, wants, offer, get_frame, drain, close}

-- A subscription with the frames it accepted, those its reader got, and how many offers there were
-- of wanted frames while it was open.
pub record Reading : Type 0 where
  pub sub : FrameSubscription
  pub accepted : List Frame
  pub got : List Frame
  pub wanted : ℕ

pub data Event : Type 0 where
  offered : Frame → Event
  read : Event
  drained : Option ℕ → Event
  closing : Event

unfoldable pub accept : Reading → Frame → FrameSubscription × Bool → Reading
accept r frame (s, true) = record {
  sub = s;
  accepted = r.accepted ++ frame ∷ [];
  got = r.got;
  wanted = r.wanted;
}
accept r frame (s, false) = record r { sub = s }

unfoldable pub open_for : FrameSubscription → Frame → Bool
open_for s frame = if s.closed then false else wants s.message_ids frame.message_id

unfoldable pub count_wanted : Bool → ℕ → ℕ
count_wanted true wanted = wanted + 1
count_wanted false wanted = wanted

unfoldable pub receive : Option Frame → List Frame
receive none = []
receive (some frame) = frame ∷ []

unfoldable pub step : Reading → Event → Reading
step r (offered frame) =
    accept (record r { wanted = count_wanted (open_for r.sub frame) r.wanted }) frame
      (offer r.sub frame)
step r read = let (s, item) = get_frame r.sub in record r { sub = s; got = r.got ++ receive item }
step r (drained max_frames) =
    let (s, frames) = drain r.sub max_frames in record r { sub = s; got = r.got ++ frames }
step r closing = record r { sub = (close r.sub).0 }

unfoldable pub run : Reading → List Event → Reading
run r [] = r
run r (e ∷ events) = run (step r e) events

pub record IsInOrder (r : Reading) : Type 0 where
  pub order : r.got ++ present r.sub.queue.items ≡ r.accepted
  pub all_wanted :
      All (λ (frame : Frame). wants r.sub.message_ids frame.message_id ≡ true) r.accepted
  pub counted : r.sub.dropped + length r.accepted ≡ r.wanted
  pub bounded : IsBounded r.sub.queue
