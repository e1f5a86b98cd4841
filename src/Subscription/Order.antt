-- ===== src/Subscription/Order.antt =====
-- What a reader of a subscription of src/sp_rtk_base_relay/core/frame_subscription.py gets.
pub mod Drain
mod Tests
use sp_rtk_base_relay.Prelude.{
  ℕ, zero, suc, ◌+◌, ◌-◌, ◌≤◌, ◌<◌, ◌≡◌, refl, ◌∙◌, ap, sym, subst, ◌⊎◌, inl, inr, Bool, true,
  false, Option, none, some, List, [], ◌∷◌, ◌++◌, length, length-append, append_assoc, append-nil,
  arith, Bool-cases, All, All-append, if◌then◌else◌, not,
}
use sp_rtk_base_relay.Queue.{Queue, present, put_nowait, is_full, get_nowait, get_items, qsize}
use sp_rtk_base_relay.Queue.Laws.{IsBounded, present-append, put_cases}
use sp_rtk_base_relay.Subscription.{
  Frame, FrameSubscription, wants, offer, get_frame, drain, close, wake,
}
use Drain.{drain_parts, drain_lem, drain_all}
use sp_rtk_base_relay.Subscription.Readings.{
  Reading, Event, offered, read, drained, closing, accept, open_for, count_wanted, receive, step,
  run, IsInOrder,
}

-- An offer is refused, counted, or accepted at the end of the queue.
offer_cases :
    (s : FrameSubscription) (frame : Frame)
    → ((open_for s frame ≡ false) × (offer s frame ≡ (s, false)))
      ⊎ ((open_for s frame ≡ true)
          × ((offer s frame ≡ (record s { dropped = s.dropped + 1 }, false))
              ⊎ ((wants s.message_ids frame.message_id ≡ true)
                  × (is_full s.queue ≡ false)
                  × (offer s frame ≡ (
                    record s {
                      queue = record s.queue { items = s.queue.items ++ some frame ∷ [] };
                    },
                    true,
                  )))))
unfolding offer open_for
offer_cases s frame = elim (Bool-cases s.closed) [
  | inl shut ↦ simp shut (inl (refl, refl))
  | inr opened ↦ elim (Bool-cases (wants s.message_ids frame.message_id)) [
    | inr unwanted ↦ simp (opened, unwanted) (inl (refl, refl))
    | inl wanted ↦ elim (put_cases s.queue (some frame)) [
      | inl (room, e) ↦ simp (opened, wanted, e) (inr (refl, inr (refl, room, refl)))
      | inr (full, e) ↦ simp (opened, wanted, e) (inr (refl, inl refl))
    ]
  ]
]

get_frame_parts :
    (s : FrameSubscription)
    → IsBounded s.queue
    → let (s', item) = get_frame s in
      (receive item ++ present s'.queue.items ≡ present s.queue.items)
      × (s'.message_ids ≡ s.message_ids)
      × (s'.dropped ≡ s.dropped)
      × IsBounded s'.queue
unfolding get_frame get_nowait get_items receive present
get_frame_parts s bounded =
    let same : (get_frame s).0.queue.maxsize ≡ s.queue.maxsize = ground arith in
    (
      ground arith,
      ground arith,
      ground arith,
      λ p. ground (arith, bounded (subst (λ m. 0 < m) same p)),
    )

close_parts :
    (s : FrameSubscription)
    → IsBounded s.queue
    → let s' = (close s).0 in
      (present s'.queue.items ≡ present s.queue.items)
      × (s'.message_ids ≡ s.message_ids)
      × (s'.dropped ≡ s.dropped)
      × IsBounded s'.queue
unfolding close wake put_nowait is_full present
close_parts s bounded = ground (
  arith,
  present-append s.queue.items (none ∷ []),
  append-nil (present s.queue.items),
  length-append s.queue.items (none ∷ []),
  bounded,
)

get_frame_closed : (s : FrameSubscription) → (get_frame s).0.closed ≡ s.closed
unfolding get_frame
get_frame_closed s = ground arith

close_closed : (s : FrameSubscription) → (close s).0.closed ≡ true
unfolding close
close_closed s = ground arith

offer_closed :
    (s : FrameSubscription) (frame : Frame) → s.closed ≡ true → offer s frame ≡ (s, false)
unfolding offer
offer_closed s frame shut = simp shut refl

module _ (r : Reading) (v : IsInOrder r) where
  offered-IsInOrder : (frame : Frame) → IsInOrder (step r (offered frame))
  unfolding step accept count_wanted present is_full
  offered-IsInOrder frame = elim (offer_cases r.sub frame) [
    | inl (shut, e) ↦
        rw (e, shut)
          (record {
            order = v.order;
            all_wanted = v.all_wanted;
            counted = v.counted;
            bounded = v.bounded;
          })
    | inr (opened, inl e) ↦
        rw (e, opened)
          (record {
            order = v.order;
            all_wanted = v.all_wanted;
            counted = omega (arith, v.counted);
            bounded = v.bounded;
          })
    | inr (opened, inr (wanted, room, e)) ↦
        rw (e, opened)
          (record {
            order =
                ap (λ l. r.got ++ l) (present-append r.sub.queue.items (some frame ∷ []))
                ∙ sym (append_assoc r.got (present r.sub.queue.items) (frame ∷ []))
                ∙ ap (λ l. l ++ frame ∷ []) v.order;
            all_wanted = All-append _ r.accepted (frame ∷ []) v.all_wanted (wanted, tt);
            counted = omega (arith, v.counted, length-append r.accepted (frame ∷ []));
            bounded =
                λ p. ground (arith, length-append r.sub.queue.items (some frame ∷ []), v.bounded p);
          })
  ]

  with_sub :
      (s : FrameSubscription) (frames : List Frame)
      → frames ++ present s.queue.items ≡ present r.sub.queue.items
      → s.message_ids ≡ r.sub.message_ids
      → s.dropped ≡ r.sub.dropped
      → IsBounded s.queue
      → IsInOrder (record r { sub = s; got = r.got ++ frames })
  with_sub s frames whole ids dropped bounded = record {
    order =
        append_assoc r.got frames (present s.queue.items) ∙ ap (λ l. r.got ++ l) whole ∙ v.order;
    all_wanted =
        subst (λ i. All (λ (frame : Frame). wants i frame.message_id ≡ true) r.accepted) (sym ids)
          v.all_wanted;
    counted = omega (arith, dropped, v.counted);
    bounded = bounded;
  }

  read-IsInOrder : IsInOrder (step r read)
  unfolding step
  read-IsInOrder =
      let (whole, ids, dropped, bounded) = get_frame_parts r.sub v.bounded in
      with_sub (get_frame r.sub).0 (receive (get_frame r.sub).1) whole ids dropped bounded

  drained-IsInOrder : (max_frames : Option ℕ) → IsInOrder (step r (drained max_frames))
  unfolding step
  drained-IsInOrder max_frames =
      let (whole, ids, dropped, bounded) = drain_parts r.sub max_frames v.bounded in
      with_sub (drain r.sub max_frames).0 (drain r.sub max_frames).1 whole ids dropped bounded

  closing-IsInOrder : IsInOrder (step r closing)
  unfolding step
  closing-IsInOrder =
      let (whole, ids, dropped, bounded) = close_parts r.sub v.bounded in
      subst (λ l. IsInOrder (record r { sub = (close r.sub).0; got = l })) (append-nil r.got)
        (with_sub (close r.sub).0 [] whole ids dropped bounded)

  step-IsInOrder : (e : Event) → IsInOrder (step r e)
  step-IsInOrder (offered frame) = offered-IsInOrder frame
  step-IsInOrder read = read-IsInOrder
  step-IsInOrder (drained max_frames) = drained-IsInOrder max_frames
  step-IsInOrder closing = closing-IsInOrder

-- In any order of offers, reads, drains and closes: the frames that the reader got, and then those
-- still queued, are all the frames that were accepted, in their order; each has a number that the
-- subscription wants; every offer of a wanted frame to the open subscription was accepted or is
-- counted as dropped; and the queue stays within its maximum size.
pub run-IsInOrder : (r : Reading) (events : List Event) → IsInOrder r → IsInOrder (run r events)
unfolding run
run-IsInOrder r [] v = v
run-IsInOrder r (e ∷ events) v = run-IsInOrder (step r e) events (step-IsInOrder r v e)

closed_step :
    (r : Reading) (e : Event)
    → r.sub.closed ≡ true
    → ((step r e).sub.closed ≡ true) × ((step r e).accepted ≡ r.accepted)
unfolding step accept
closed_step r (offered frame) shut = rw (offer_closed r.sub frame shut) (shut, refl)
closed_step r read shut = (get_frame_closed r.sub ∙ shut, refl)
closed_step r (drained max_frames) shut =
    (ap (λ (s : FrameSubscription). s.closed) (drain_lem r.sub max_frames).2 ∙ shut, refl)
closed_step r closing shut = (close_closed r.sub, refl)

closed_run :
    (r : Reading) (events : List Event)
    → r.sub.closed ≡ true
    → let r' = run r events in (r'.sub.closed ≡ true) × (r'.accepted ≡ r.accepted)
unfolding run
closed_run r [] shut = (shut, refl)
closed_run r (e ∷ events) shut =
    let (shut', same) = closed_step r e shut in
    let (shut'', same') = closed_run (step r e) events shut' in (shut'', same' ∙ same)

-- A subscription in order that is closed, whatever offers, reads, drains and further closes come
-- after: it stays closed and accepts nothing more; and what the reader got, before and after the
-- close, together with what a drain without a limit then gives, is all that it had accepted before
-- the close, in order, so that the close loses no frame.
pub run_closed :
    (r : Reading) (events : List Event)
    → IsInOrder r
    → let r' = run (step r closing) events in
      (r'.sub.closed ≡ true)
      × (r'.accepted ≡ r.accepted)
      × (r'.got ++ (drain r'.sub none).1 ≡ r.accepted)
unfolding step
run_closed r events v =
    let (shut, same) = closed_run (step r closing) events (close_closed r.sub) in
    let v' = run-IsInOrder (step r closing) events (step-IsInOrder r v closing) in
    let r' = run (step r closing) events in
    (shut, same, ap (λ l. r'.got ++ l) (drain_all r'.sub) ∙ v'.order ∙ same)

-- An open subscription with room takes a frame exactly if it wants it.
pub offer_room :
    (s : FrameSubscription) (frame : Frame)
    → s.closed ≡ false
    → is_full s.queue ≡ false
    → (offer s frame).0 ≡ (
        if wants s.message_ids frame.message_id
        then record s { queue = record s.queue { items = s.queue.items ++ some frame ∷ [] } }
        else s)
unfolding offer put_nowait
offer_room s frame opened room = elim (Bool-cases (wants s.message_ids frame.message_id)) [
  | inl wanted ↦ simp (opened, wanted, room) refl
  | inr unwanted ↦ simp (opened, unwanted) refl
]
