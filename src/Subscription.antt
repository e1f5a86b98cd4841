-- ===== src/Subscription.antt =====
-- src/sp_rtk_base_relay/core/frame_subscription.py: a subscription to the frames of the input.
-- Each method is one step: the closed flag that it reads does not change under it. A wait at the
-- queue gives what is there, else `none` for the timeout. A set of message numbers is a list.
-- `none` among the queue's items wakes a reader. The callback of close() is the caller's part: the
-- result says whether it is called.
pub mod Readings
pub mod Order
use sp_rtk_base_relay.Prelude.{
  ℕ, zero, suc, ◌+◌, Bool, true, false, not, ◌&&◌, Option, none, some, List, [], ◌∷◌, length, ltb,
  if◌then◌else◌,
}
use sp_rtk_base_relay.Prelude.Int.{ℤ}
use sp_rtk_base_relay.Rtcm.{Bytes}
use sp_rtk_base_relay.Filter.{contains}
use sp_rtk_base_relay.Queue.{Queue, new, put_nowait, get_nowait, qsize}

pub record Frame : Type 0 where
  pub message_id : ℕ
  pub data_bytes : Bytes

-- `key` is the object's identity.
pub record FrameSubscription : Type 0 where
  pub key : ℕ
  pub message_ids : Option (List ℤ)
  pub queue : Queue (Option Frame)
  pub closed : Bool
  pub dropped : ℕ

abbrev pub default_frame_queue_size : ℕ
default_frame_queue_size = 100

unfoldable pub open_subscription : ℕ → Option (List ℤ) → ℕ → FrameSubscription
unfolding new
open_subscription key message_ids maxsize = record {
  key = key;
  message_ids = message_ids;
  queue = new maxsize;
  closed = false;
  dropped = 0;
}

-- message_ids is None, or has the number.
pub wants : Option (List ℤ) → ℕ → Bool
wants none message_id = true
wants (some ids) message_id = contains ids message_id

pub offer : FrameSubscription → Frame → FrameSubscription × Bool
offer s frame =
    if s.closed
    then (s, false)
    else if not (wants s.message_ids frame.message_id)
    then (s, false)
    else elim (put_nowait s.queue (some frame)) [
      | some q ↦ (record s { queue = q }, true)
      | none ↦ (record s { dropped = s.dropped + 1 }, false)
    ]

pub get_frame : FrameSubscription → FrameSubscription × Option Frame
get_frame s = elim (get_nowait s.queue) [
  | some (item, q) ↦ (record s { queue = q }, item)
  | none ↦ (s, none)
]

-- `max_frames is None or len(frames) < max_frames`
below_limit : Option ℕ → ℕ → Bool
below_limit none count = true
below_limit (some max_frames) count = ltb count max_frames

keep_frame : Option Frame → List Frame → List Frame
keep_frame none frames = frames
keep_frame (some frame) frames = frame ∷ frames

count_frame : Option Frame → ℕ → ℕ
count_frame none count = count
count_frame (some frame) count = suc count

-- `count` is len(frames); the result holds what is appended from here on.
pub drain_loop : ℕ → Option ℕ → ℕ → Queue (Option Frame) → List Frame × Queue (Option Frame)
drain_loop zero max_frames count q = ([], q)
drain_loop (suc fuel) max_frames count q =
    if below_limit max_frames count
    then elim (get_nowait q) [
      | none ↦ ([], q)
      | some (item, q') ↦
          let (frames, q'') = drain_loop fuel max_frames (count_frame item count) q' in
          (keep_frame item frames, q'')
    ]
    else ([], q)

pub drain : FrameSubscription → Option ℕ → FrameSubscription × List Frame
drain s max_frames =
    let (frames, q) = drain_loop (qsize s.queue + 1) max_frames 0 s.queue in
    (record s { queue = q }, frames)

-- The wake-up; a full queue has no reader waiting.
wake : Queue (Option Frame) → Queue (Option Frame)
wake q = elim (put_nowait q none) [ some q' ↦ q' | none ↦ q ]

-- True if the callback is called.
unfoldable pub close : FrameSubscription → FrameSubscription × Bool
unfolding wake
close s = if s.closed then (s, false) else (record s { closed = true; queue = wake s.queue }, true)
