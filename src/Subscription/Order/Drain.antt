-- ===== src/Subscription/Order/Drain.antt =====
-- drain() of src/sp_rtk_base_relay/core/frame_subscription.py.
use sp_rtk_base_relay.Prelude.{
  ℕ, zero, suc, ◌+◌, ◌-◌, ◌≤◌, ◌<◌, ◌≡◌, refl, ◌∙◌, ap, ap₂, append-nil, take-append-drop,
  take-length, sym, true, false, Option, none, some, List, [], ◌∷◌, ◌++◌, length, arith, take, drop,
  ltb, Bool-cases, inl, inr,
}
use sp_rtk_base_relay.Queue.{Queue, present, get_nowait, get_items, qsize}
use sp_rtk_base_relay.Queue.Laws.{IsBounded}
use sp_rtk_base_relay.Subscription.{
  Frame, FrameSubscription, drain, drain_loop, below_limit, keep_frame, count_frame,
}

-- The frames that may still be read after `count`, and those that stay.
pub taken_of : Option ℕ → ℕ → List Frame → List Frame
taken_of none count frames = frames
taken_of (some max_frames) count frames = take (max_frames - count) frames

pub left_of : Option ℕ → ℕ → List Frame → List Frame
left_of none count frames = []
left_of (some max_frames) count frames = drop (max_frames - count) frames

record IsDrained (max_frames : Option ℕ) (count m : ℕ) (items : List (Option Frame))
    (result : List Frame × Queue (Option Frame)) : Type 0 where
  frames : result.0 ≡ taken_of max_frames count (present items)
  left : present result.1.items ≡ left_of max_frames count (present items)
  size : result.1.maxsize ≡ m
  shorter : length result.1.items ≤ length items

abbrev no_frames : List Frame
no_frames = []

take_nil : (k : ℕ) → take k no_frames ≡ []
take_nil k = take-length k [] (omega arith)

drop_nil : (k : ℕ) → drop k no_frames ≡ []
drop_nil zero = refl
drop_nil (suc k) = refl

taken_none :
    (n count : ℕ) (frames : List Frame)
    → ltb count n ≡ false
    → ([] ≡ taken_of (some n) count frames) × (frames ≡ left_of (some n) count frames)
unfolding taken_of left_of
taken_none n count frames h =
    let none_left : n - count ≡ 0 = ground (arith, h) in rw none_left (refl, refl)

taken_more :
    (n count : ℕ) (frame : Frame) (frames : List Frame)
    → ltb count n ≡ true
    → (frame ∷ taken_of (some n) (suc count) frames ≡ taken_of (some n) count (frame ∷ frames))
      × (left_of (some n) (suc count) frames ≡ left_of (some n) count (frame ∷ frames))
unfolding taken_of left_of
taken_more n count frame frames h =
    let one_more : n - count ≡ suc (n - suc count) = ground (arith, h) in rw one_more (refl, refl)

stopped_early :
    (n count m : ℕ) (items : List (Option Frame))
    → ltb count n ≡ false
    → IsDrained (some n) count m items ([], record { items = items; maxsize = m })
stopped_early n count m items reached =
    let (taken, left) = taken_none n count (present items) reached in
    record { frames = taken; left = left; size = refl; shorter = omega arith }

drain_loop_lem :
    (max_frames : Option ℕ) (fuel count m : ℕ) (items : List (Option Frame))
    → length items < fuel
    → IsDrained max_frames count m items
        (drain_loop fuel max_frames count (record { items = items; maxsize = m }))
unfolding drain_loop get_nowait get_items below_limit keep_frame count_frame present taken_of
    left_of
drain_loop_lem max_frames zero count m items h = absurd (omega (arith, h))
drain_loop_lem none (suc fuel) count m [] h = record {
  frames = refl;
  left = refl;
  size = refl;
  shorter = omega arith;
}
drain_loop_lem none (suc fuel) count m (none ∷ items) h =
    let r = drain_loop_lem none fuel count m items (omega (arith, h)) in
    record { frames = r.frames; left = r.left; size = r.size; shorter = omega (arith, r.shorter) }
drain_loop_lem none (suc fuel) count m (some a ∷ items) h =
    let r = drain_loop_lem none fuel (suc count) m items (omega (arith, h)) in
    record {
      frames = ap (λ l. a ∷ l) r.frames;
      left = r.left;
      size = r.size;
      shorter = omega (arith, r.shorter);
    }
drain_loop_lem (some n) (suc fuel) count m [] h = elim (Bool-cases (ltb count n)) [
  | inl below ↦ rw below (record {
    frames = sym (take_nil (n - count));
    left = sym (drop_nil (n - count));
    size = refl;
    shorter = omega arith;
  })
  | inr reached ↦ rw reached (stopped_early n count m [] reached)
]
drain_loop_lem (some n) (suc fuel) count m (none ∷ items) h =
    let r = drain_loop_lem (some n) fuel count m items (omega (arith, h)) in
    elim (Bool-cases (ltb count n)) [
      | inl below ↦ rw below (record {
        frames = r.frames;
        left = r.left;
        size = r.size;
        shorter = omega (arith, r.shorter);
      })
      | inr reached ↦ rw reached (stopped_early n count m (none ∷ items) reached)
    ]
drain_loop_lem (some n) (suc fuel) count m (some a ∷ items) h =
    let r = drain_loop_lem (some n) fuel (suc count) m items (omega (arith, h)) in
    elim (Bool-cases (ltb count n)) [
      | inl below ↦
          let (taken, left) = taken_more n count a (present items) below in
          rw below (record {
            frames = ap (λ l. a ∷ l) r.frames ∙ taken;
            left = r.left ∙ left;
            size = r.size;
            shorter = omega (arith, r.shorter);
          })
      | inr reached ↦ rw reached (stopped_early n count m (some a ∷ items) reached)
    ]

-- A drain gives the frames that are queued, up to its limit, and leaves the others, in order.
pub drain_lem :
    (s : FrameSubscription) (max_frames : Option ℕ)
    → let (s', frames) = drain s max_frames in
      (frames ≡ taken_of max_frames 0 (present s.queue.items))
      × (present s'.queue.items ≡ left_of max_frames 0 (present s.queue.items))
      × (s' ≡ record s { queue = s'.queue })
unfolding drain
drain_lem s max_frames =
    let r =
      drain_loop_lem max_frames (qsize s.queue + 1) 0 s.queue.maxsize s.queue.items (omega arith) in
    (r.frames, r.left, refl)

taken-left :
    (max_frames : Option ℕ) (frames : List Frame)
    → taken_of max_frames 0 frames ++ left_of max_frames 0 frames ≡ frames
unfolding taken_of left_of
taken-left none frames = append-nil frames
taken-left (some n) frames = take-append-drop (n - 0) frames

pub drain_parts :
    (s : FrameSubscription) (max_frames : Option ℕ)
    → IsBounded s.queue
    → let (s', frames) = drain s max_frames in
      (frames ++ present s'.queue.items ≡ present s.queue.items)
      × (s'.message_ids ≡ s.message_ids)
      × (s'.dropped ≡ s.dropped)
      × IsBounded s'.queue
unfolding drain
drain_parts s max_frames bounded =
    let r =
      drain_loop_lem max_frames (qsize s.queue + 1) 0 s.queue.maxsize s.queue.items (omega arith) in
    (
      ap₂ (λ (l : List Frame) (l' : List Frame). l ++ l') r.frames r.left
          ∙ taken-left max_frames (present s.queue.items),
      refl,
      refl,
      λ p. ground (arith, r.shorter, r.size, bounded),
    )

pub drain_all : (s : FrameSubscription) → (drain s none).1 ≡ present s.queue.items
unfolding taken_of
drain_all s = (drain_lem s none).0
