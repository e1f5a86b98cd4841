-- ===== src/Destination/History/Parts.antt =====
-- How the parts of src/sp_rtk_base_relay/core/destinations/base_destination.py move the chunks of a
-- queue.
use mathlib.Core.List.{Sublist, nil-sublist}
use mathlib.Core.List.Sublist
use sp_rtk_base_relay.Prelude.{
  ℕ, ◌+◌, ◌<◌, ◌≡◌, refl, ◌∙◌, ap, subst, ◌⊎◌, inl, inr, none, some, List, [], ◌∷◌, ◌++◌,
  append_assoc, append-nil, arith, Bool, false, Bool-cases, Option-cases, by_branches,
}
use sp_rtk_base_relay.Rtcm.{Bytes}
use sp_rtk_base_relay.Queue.{put_nowait, get_nowait, get_items}
use sp_rtk_base_relay.Queue.Laws.{IsBounded, put_cases, put-IsBounded}
use sp_rtk_base_relay.Destination.{
  Remote, Item, Destination, start, first_pill, drop_first, last_pill, taken, take_item,
  connect_succeeded, attempt_connect, ensure_connected,
}
use sp_rtk_base_relay.Destination.Loop.{
  connected_already, connect_cleared, connect_refused, connect_raised,
}
use sp_rtk_base_relay.Destination.History.{payloads, total, held_list, keep_taken}

pub payloads-append : (xs ys : List Item) → payloads (xs ++ ys) ≡ payloads xs ++ payloads ys
unfolding payloads
payloads-append [] ys = refl
payloads-append (none ∷ xs) ys = payloads-append xs ys
payloads-append (some bytes ∷ xs) ys = ap (λ l. bytes ∷ l) (payloads-append xs ys)

pub total-append : (xs ys : List Bytes) → total (xs ++ ys) ≡ total xs + total ys
unfolding total
total-append [] ys = omega arith
total-append (x ∷ xs) ys = omega (arith, total-append xs ys)

-- Leaving out what is at the front of the queue, or all of it.
pub order_without :
    (delivered held : List Bytes) {queued queued' accepted : List Bytes}
    → Sublist queued' queued
    → Sublist (delivered ++ (held ++ queued)) accepted
    → Sublist (delivered ++ (held ++ queued')) accepted
order_without delivered held s h =
    Sublist.trans (Sublist.append (Sublist.refl delivered) (Sublist.append (Sublist.refl held) s)) h

pub order_later :
    (delivered held queued : List Bytes) (bytes : Bytes) {accepted : List Bytes}
    → Sublist (delivered ++ (held ++ queued)) accepted
    → Sublist (delivered ++ (held ++ (queued ++ bytes ∷ []))) (accepted ++ bytes ∷ [])
order_later delivered held queued bytes {accepted} h =
    subst (λ l. Sublist l (accepted ++ bytes ∷ []))
      (append_assoc delivered (held ++ queued) (bytes ∷ [])
        ∙ ap (λ l. delivered ++ l) (append_assoc held queued (bytes ∷ [])))
      (Sublist.append h (Sublist.refl (bytes ∷ [])))

payloads-pill : (xs : List Item) → payloads (xs ++ none ∷ []) ≡ payloads xs
unfolding payloads
payloads-pill xs = payloads-append xs (none ∷ []) ∙ append-nil (payloads xs)

payloads-tail : (x : Item) (rest : List Item) → Sublist (payloads rest) (payloads (x ∷ rest))
unfolding payloads
payloads-tail none rest = Sublist.refl (payloads rest)
payloads-tail (some bytes) rest = Sublist.cons bytes (Sublist.refl (payloads rest))

-- A part of stop() that keeps the statistics, and of the chunks in the queue all or some.
abbrev pub IsPart : {R : Type 0} → Destination R → Destination R → Type 0
IsPart d d' =
    (d'.stats ≡ d.stats)
    × Sublist (payloads d'.queue.items) (payloads d.queue.items)
    × IsBounded d'.queue

whole-IsPart : {R : Type 0} (d : Destination R) → IsBounded d.queue → IsPart d d
whole-IsPart d bounded = (refl, Sublist.refl (payloads d.queue.items), bounded)

-- The poison pill is no chunk.
pilled-IsPart :
    {R : Type 0} (d : Destination R) (running : Bool)
    → IsBounded d.queue
    → put_nowait d.queue none
      ≡ some (record { items = d.queue.items ++ none ∷ []; maxsize = d.queue.maxsize })
    → IsPart d (record d {
      running = running;
      queue = record { items = d.queue.items ++ none ∷ []; maxsize = d.queue.maxsize };
    })
pilled-IsPart d running bounded put = (
  refl,
  rw (payloads-pill d.queue.items) (Sublist.refl (payloads d.queue.items)),
  put-IsBounded d.queue none bounded put,
)

pub first_pill-IsPart :
    {R : Type 0} (d : Destination R) → IsBounded d.queue → IsPart d (first_pill d).0
unfolding first_pill
first_pill-IsPart {R} d bounded =
    by_branches (λ (x : Destination R × Bool). IsPart d x.0) d.running
      (λ on. elim (put_cases d.queue none) [
        | inl (room, put) ↦ rw (put, first_pill) (pilled-IsPart d false bounded put)
        | inr (full, refusal) ↦ rw (refusal, first_pill) (whole-IsPart d bounded)
      ])
      (λ off. whole-IsPart d bounded)

pub last_pill-IsPart :
    {R : Type 0} (d : Destination R)
    → IsBounded d.queue
    → (last_pill d ≡ none) ⊎ ((d' : Destination R) × (last_pill d ≡ some d') × IsPart d d')
unfolding last_pill
last_pill-IsPart d bounded = elim (put_cases d.queue none) [
  | inl (room, put) ↦ inr (
    record d { queue = record { items = d.queue.items ++ none ∷ []; maxsize = d.queue.maxsize } },
    rw (put, last_pill) refl,
    pilled-IsPart d d.running bounded put,
  )
  | inr (full, refusal) ↦ inl (rw (refusal, last_pill) refl)
]

-- At most one chunk makes room for the pill.
pub drop_first-IsPart :
    {R : Type 0} (d : Destination R) → IsBounded d.queue → IsPart d (drop_first d).0
unfolding drop_first get_nowait get_items
drop_first-IsPart {R} d bounded = from_items d.queue.items d.queue.maxsize bounded
  where
    from_items :
        (items : List Item) (m : ℕ)
        → IsBounded (record { items = items; maxsize = m })
        → let before : Destination R = record d { queue = record { items = items; maxsize = m } } in
          IsPart before (drop_first before).0
    from_items [] m bounded =
        whole-IsPart (record d { queue = record { items = []; maxsize = m } }) bounded
    from_items (x ∷ rest) m bounded = (refl, payloads-tail x rest, λ p. omega (arith, bounded p))

pub same_stats :
    {R : Type 0} (d : Destination R) → ((start d).0.stats ≡ d.stats) × ((start d).0.queue ≡ d.queue)
unfolding start
same_stats d = ground arith

module _ {R : Type 0} (ops : Remote R) where
  pub take_item_parts :
      (d : Destination R)
      → IsBounded d.queue
      → let (got, d') = take_item d in
        (d'.stats ≡ d.stats)
        × (held_list (keep_taken ops got) ++ payloads d'.queue.items ≡ payloads d.queue.items)
        × IsBounded d'.queue
  unfolding take_item taken get_nowait get_items keep_taken payloads
  take_item_parts d bounded =
      let same : (take_item d).1.queue.maxsize ≡ d.queue.maxsize = ground arith in
      (ground arith, ground arith, λ p. ground (arith, bounded (subst (λ m. 0 < m) same p)))

  pub ensure_connected_parts :
      (now : ℕ) (d : Destination R)
      → IsBounded d.queue
      → let d' = ensure_connected ops now d in
        Sublist (payloads d'.queue.items) (payloads d.queue.items)
        × IsBounded d'.queue
        × (d'.stats.messages_sent ≡ d.stats.messages_sent)
        × (d'.stats.bytes_sent ≡ d.stats.bytes_sent)
        × (d'.stats.messages_dropped ≡ d.stats.messages_dropped)
        × (d.stats.connection_attempts
              ≡ d.stats.successful_connections + d.stats.connection_failures
            → d'.stats.connection_attempts
              ≡ d'.stats.successful_connections + d'.stats.connection_failures)
  unfolding ensure_connected attempt_connect connect_succeeded payloads
  ensure_connected_parts now d bounded =
      let whole = Sublist.refl (payloads d.queue.items) in
      elim (Bool-cases (ops.is_connected d.remote)) [
        | inl on ↦ rw (connected_already ops now d on) (whole, bounded, refl, refl, refl, λ a. a)
        | inr off ↦ elim (Option-cases (ops.connect d.remote).0) [
          | inl fine ↦ elim (Bool-cases (ops.is_connected (ops.connect d.remote).1)) [
            | inl now_on ↦ rw (connect_cleared ops now d off fine now_on) (
              nil-sublist (payloads d.queue.items),
              λ p. omega arith,
              refl,
              refl,
              refl,
              λ a. omega arith,
            )
            | inr still_off ↦
                rw (connect_refused ops now d off fine still_off)
                  (whole, bounded, refl, refl, refl, λ a. omega arith)
          ]
          | inr (error, raised) ↦
              rw (connect_raised ops now d off error raised)
                (whole, bounded, refl, refl, refl, λ a. omega arith)
        ]
      ]
