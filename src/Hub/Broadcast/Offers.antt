-- ===== src/Hub/Broadcast/Offers.antt =====
-- What the frame subscribers of the hub of src/sp_rtk_base_relay/core/broadcast_hub.py are offered.
use sp_rtk_base_relay.Prelude.{
  ℕ, suc, ◌+◌, ◌≤◌, ◌<◌, ◌≡◌, refl, ◌∙◌, sym, ap, ap₂, inl, inr, true, false, Option, none, some,
  List, [], ◌∷◌, ◌++◌, map, length, length-append, append-nil, append_assoc, All, Bool-cases,
  if_true, if_false, arith, if◌then◌else◌,
}
use mathlib.Core.List.{map-map, map-id, flatten}
use sp_rtk_base_relay.Prelude.Int.{ℤ}
use sp_rtk_base_relay.Rtcm.{Bytes}
use sp_rtk_base_relay.Queue.{Queue, present, is_full}
use sp_rtk_base_relay.Queue.Laws.{present-append}
use sp_rtk_base_relay.Framing.{Parsed, parse_frames, parse_chunks}
use sp_rtk_base_relay.Framing.Chunks.{parsed_first, parse_chunks-nil}
use sp_rtk_base_relay.Framing.Streams.{Segments, IsStream, stream, frames_of, parse_chunks-stream}
use sp_rtk_base_relay.Subscription.{Frame, FrameSubscription, wants, offer, drain}
use sp_rtk_base_relay.Subscription.Order.{offer_room}
use sp_rtk_base_relay.Subscription.Order.Drain.{drain_all}
use sp_rtk_base_relay.Hub.{BroadcastHub}
use sp_rtk_base_relay.Hub.Broadcast.{
  as_frame, offer_loop, broadcast, broadcast_all, distribute_filtered,
}
use sp_rtk_base_relay.Hub.Broadcast.Paths.{chunk_bytes, broadcast_filtered}

-- One subscription, offered each of the frames.
pub offered_each : List Parsed → FrameSubscription → FrameSubscription
offered_each [] s = s
offered_each (frame ∷ frames) s = offered_each frames (offer s (as_frame frame)).0

map_same_each :
    (f g : FrameSubscription → FrameSubscription) (subs : List FrameSubscription)
    → ((s : FrameSubscription) → f s ≡ g s)
    → map f subs ≡ map g subs
map_same_each f g [] same = refl
map_same_each f g (s ∷ subs) same =
    ap₂ (λ (t : FrameSubscription) (ts : List FrameSubscription). t ∷ ts) (same s)
      (map_same_each f g subs same)

offered_each-append :
    (xs ys : List Parsed) (s : FrameSubscription)
    → offered_each (xs ++ ys) s ≡ offered_each ys (offered_each xs s)
unfolding offered_each
offered_each-append [] ys s = refl
offered_each-append (x ∷ xs) ys s = offered_each-append xs ys (offer s (as_frame x)).0

offer_loop-each :
    (frames : List Parsed) (subs : List FrameSubscription)
    → offer_loop frames subs ≡ map (offered_each frames) subs
unfolding offer_loop offered_each
offer_loop-each [] subs = sym (map-id subs)
offer_loop-each (frame ∷ frames) subs =
    offer_loop-each frames (map (λ (s : FrameSubscription). (offer s (as_frame frame)).0) subs)
    ∙ map-map (offered_each frames) (λ (s : FrameSubscription). (offer s (as_frame frame)).0) subs

module _ {R : Type 0} where
  broadcast-offers :
      (now : ℕ) (bytes : Bytes) (h : BroadcastHub R)
      → h.any_needs_parsing ≡ true
      → (broadcast now bytes h).frame_subscribers
        ≡ map (offered_each (parse_frames h.frame_buffer bytes).0) h.frame_subscribers
  unfolding broadcast distribute_filtered
  broadcast-offers now bytes h parsing =
      simp parsing (offer_loop-each (parse_frames h.frame_buffer bytes).0 h.frame_subscribers)

  -- Over any chunks, each subscriber is offered what the hub delimits in all of them.
  broadcast_all-offers :
      (chunks : List (ℕ × Bytes)) (h : BroadcastHub R)
      → h.any_needs_parsing ≡ true
      → (broadcast_all chunks h).frame_subscribers
        ≡ map
            (offered_each (parse_chunks h.frame_buffer (map chunk_bytes chunks)).0)
            h.frame_subscribers
  unfolding broadcast_all offered_each
  broadcast_all-offers [] h parsing =
      sym (map-id h.frame_subscribers)
      ∙ ap (λ frames. map (offered_each frames) h.frame_subscribers)
          (sym (parse_chunks-nil h.frame_buffer))
  broadcast_all-offers ((now, bytes) ∷ chunks) h parsing =
      let (found, left) = parse_frames h.frame_buffer bytes in
      let (given, still, left_same) = broadcast_filtered now bytes h parsing in
      let later = map chunk_bytes chunks in
      broadcast_all-offers chunks (broadcast now bytes h) still
      ∙ ap₂
          (λ (buffer : Bytes) (subs : List FrameSubscription).
            map (offered_each (parse_chunks buffer later).0) subs)
          left_same (broadcast-offers now bytes h parsing)
      ∙ map-map (offered_each (parse_chunks left later).0) (offered_each found) h.frame_subscribers
      ∙ map_same_each (λ s. offered_each (parse_chunks left later).0 (offered_each found s))
          (offered_each (parse_chunks h.frame_buffer (bytes ∷ later)).0) h.frame_subscribers
          (λ s.
            sym (offered_each-append found (parse_chunks left later).0 s)
            ∙ ap (λ frames. offered_each frames s) (sym (parsed_first h.frame_buffer bytes later)))

-- The frames of these numbers, in order.
pub wanted_of : Option (List ℤ) → List Parsed → List Frame
wanted_of ids [] = []
wanted_of ids (frame ∷ frames) =
    let rest = wanted_of ids frames in if wants ids frame.0 then as_frame frame ∷ rest else rest

-- Open, with nothing queued and room for so many frames.
pub record IsReady (n : ℕ) (s : FrameSubscription) : Type 0 where
  pub opened : s.closed ≡ false
  pub empty : s.queue.items ≡ []
  pub room : 0 < s.queue.maxsize → n ≤ s.queue.maxsize

room_for :
    (n : ℕ) (q : Queue (Option Frame))
    → (0 < q.maxsize → length q.items + suc n ≤ q.maxsize)
    → is_full q ≡ false
unfolding is_full
room_for n q room = ground (arith, room)

offered_each-present :
    (frames : List Parsed) (s : FrameSubscription)
    → s.closed ≡ false
    → (0 < s.queue.maxsize → length s.queue.items + length frames ≤ s.queue.maxsize)
    → present (offered_each frames s).queue.items
      ≡ present s.queue.items ++ wanted_of s.message_ids frames
unfolding offered_each wanted_of present
offered_each-present [] s opened room = sym (append-nil (present s.queue.items))
offered_each-present (frame ∷ frames) s opened room =
    let offer_is = offer_room s (as_frame frame) opened (room_for (length frames) s.queue room) in
    elim (Bool-cases (wants s.message_ids frame.0)) [
      | inl wanted ↦
          let s' : FrameSubscription = record s {
            queue = record s.queue { items = s.queue.items ++ some (as_frame frame) ∷ [] };
          } in
          let taken : (offer s (as_frame frame)).0 ≡ s' =
            offer_is ∙ if_true (wants s.message_ids frame.0) s' s wanted in
          rw wanted (
            ap (λ (t : FrameSubscription). present (offered_each frames t).queue.items) taken
            ∙ offered_each-present frames s' opened (λ sized.
              omega (arith, room sized, length-append s.queue.items (some (as_frame frame) ∷ [])))
            ∙ ap (λ l. l ++ wanted_of s.message_ids frames)
                (present-append s.queue.items (some (as_frame frame) ∷ []))
            ∙ append_assoc (present s.queue.items) (as_frame frame ∷ [])
                (wanted_of s.message_ids frames))
      | inr unwanted ↦
          let passed : (offer s (as_frame frame)).0 ≡ s =
            offer_is ∙ if_false (wants s.message_ids frame.0) _ s unwanted in
          rw unwanted (
            ap (λ (t : FrameSubscription). present (offered_each frames t).queue.items) passed
            ∙ offered_each-present frames s opened (λ sized. omega (arith, room sized)))
    ]

ready_drained :
    (frames : List Parsed) (subs : List FrameSubscription)
    → All (IsReady (length frames)) subs
    → map (λ s. (drain s none).1) (map (offered_each frames) subs)
      ≡ map (λ (s : FrameSubscription). wanted_of s.message_ids frames) subs
unfolding present
ready_drained frames [] ready = refl
ready_drained frames (s ∷ subs) ready =
    let empty = ready.0.empty in
    ap₂ (λ (l : List Frame) (ls : List (List Frame)). l ∷ ls)
      (drain_all (offered_each frames s)
        ∙ offered_each-present frames s ready.0.opened
            (λ sized. omega (arith, ready.0.room sized, ap length empty))
        ∙ ap (λ (items : List (Option Frame)). present items ++ wanted_of s.message_ids frames)
            empty)
      (ready_drained frames subs ready.1)

-- A hub with an empty buffer that parses reads a stream of frames with other bytes between them, in
-- chunks of any size; its subscriptions are open, with nothing queued and room for as many frames as
-- the stream has: then each one's drain without a limit gives exactly the frames of the stream with
-- the numbers that it wants, in their order, whatever the other subscriptions and the destinations
-- are.
pub broadcast_all-drain :
    {R : Type 0} (segments : Segments) (chunks : List (ℕ × Bytes)) (h : BroadcastHub R)
    → IsStream segments
    → flatten (map chunk_bytes chunks) ≡ stream segments
    → h.frame_buffer ≡ []
    → h.any_needs_parsing ≡ true
    → All (IsReady (length (frames_of segments))) h.frame_subscribers
    → map (λ s. (drain s none).1) (broadcast_all chunks h).frame_subscribers
      ≡ map
          (λ (s : FrameSubscription). wanted_of s.message_ids (frames_of segments))
          h.frame_subscribers
broadcast_all-drain segments chunks h v e empty parsing ready =
    let bytes = map chunk_bytes chunks in
    let frames =
      ap (λ buffer. (parse_chunks buffer bytes).0) empty
      ∙ ap (λ (p : List Parsed × Bytes). p.0) (parse_chunks-stream segments bytes v e) in
    ap (map (λ s. (drain s none).1)) (
      broadcast_all-offers chunks h parsing
      ∙ ap (λ l. map (offered_each l) h.frame_subscribers) frames)
    ∙ ready_drained (frames_of segments) h.frame_subscribers ready
