-- ===== src/Destination/History/Order.antt =====
-- What a destination of src/sp_rtk_base_relay/core/destinations/base_destination.py sends: chunks
-- that it accepted, each at most once and in their order, whatever the threads do.
use mathlib.Core.List.{Sublist, sublist-append_right}
use mathlib.Core.List.Sublist
use sp_rtk_base_relay.Prelude.{
  ℕ, zero, suc, ◌≡◌, refl, ◌∙◌, ap, sym, subst, inl, inr, Option, none, some, List, [], ◌∷◌, ◌++◌,
  length-append, append_assoc, arith, Option-cases, by_branches,
}
use sp_rtk_base_relay.Rtcm.{Bytes}
use sp_rtk_base_relay.Queue.{is_full}
use sp_rtk_base_relay.Queue.Laws.{IsBounded}
use sp_rtk_base_relay.Destination.{
  Remote, Destination, DestinationStats, start, first_pill, drop_first, take_item, stop_finish,
  ensure_connected,
}
use sp_rtk_base_relay.Destination.Loop.{enqueue_cases, chunk_sent, chunk_failed}
use sp_rtk_base_relay.Destination.History.{
  payloads, total, held_list, History, Event, offer, take, prepare, send, signal_stop, stop_room,
  stop_pill, finish_stop, restart, offered, took, prepared, sent, roomed, pilled, step, run,
  IsAccounted,
}
use sp_rtk_base_relay.Destination.History.Parts.{
  payloads-append, total-append, order_without, order_later, first_pill-IsPart, drop_first-IsPart,
  last_pill-IsPart, same_stats, take_item_parts, ensure_connected_parts,
}

module _ {R : Type 0} (ops : Remote R) (h : History R) (v : IsAccounted ops h) where
  -- A step that keeps the statistics, and of the queue all or a part.
  with_dest :
      (d : Destination R) (full_stops roomy_stops : ℕ)
      → d.stats ≡ h.dest.stats
      → Sublist (payloads d.queue.items) (payloads h.dest.queue.items)
      → IsBounded d.queue
      → IsAccounted ops (record h { dest = d; full_stops = full_stops; roomy_stops = roomy_stops })
  with_dest d full_stops roomy_stops same part bounded = record {
    order = order_without h.delivered (held_list h.held) part v.order;
    sent_count = ap (λ (s : DestinationStats). s.messages_sent) same ∙ v.sent_count;
    sent_bytes = ap (λ (s : DestinationStats). s.bytes_sent) same ∙ v.sent_bytes;
    dropped = rw same v.dropped;
    attempts = rw same v.attempts;
    bounded = bounded;
  }

  offer-IsAccounted : (bytes : Bytes) → IsAccounted ops (step ops h (offer bytes))
  unfolding step offered payloads is_full
  offer-IsAccounted bytes = elim (enqueue_cases h.dest bytes) [
    | inl (full, e) ↦ rw e (record {
      order = v.order;
      sent_count = v.sent_count;
      sent_bytes = v.sent_bytes;
      dropped = omega (arith, v.dropped);
      attempts = v.attempts;
      bounded = v.bounded;
    })
    | inr (room, e) ↦ rw e (record {
      order =
          rw (payloads-append h.dest.queue.items (some bytes ∷ [])) (
            order_later h.delivered (held_list h.held) (payloads h.dest.queue.items) bytes v.order);
      sent_count = v.sent_count;
      sent_bytes = v.sent_bytes;
      dropped = omega (arith, v.dropped, length-append h.accepted (bytes ∷ []));
      attempts = v.attempts;
      bounded =
          λ p. ground (arith, length-append h.dest.queue.items (some bytes ∷ []), v.bounded p);
    })
  ]

  signal-IsAccounted : IsAccounted ops (step ops h signal_stop)
  unfolding step
  signal-IsAccounted =
      let (same, part, bounded) = first_pill-IsPart h.dest v.bounded in
      with_dest (first_pill h.dest).0 _ h.roomy_stops same part bounded

  roomed-IsAccounted : (full_stops : ℕ) → IsAccounted ops (roomed ops full_stops h)
  unfolding roomed
  roomed-IsAccounted zero = v
  roomed-IsAccounted (suc full_stops) =
      let (same, part, bounded) = drop_first-IsPart h.dest v.bounded in
      with_dest (drop_first h.dest).0 full_stops _ same part bounded

  pilled-IsAccounted : (roomy_stops : ℕ) → IsAccounted ops (pilled ops roomy_stops h)
  unfolding pilled
  pilled-IsAccounted zero = v
  pilled-IsAccounted (suc roomy_stops) = elim (last_pill-IsPart h.dest v.bounded) [
    | inl raised ↦
        rw (raised, pilled)
          (with_dest h.dest h.full_stops roomy_stops refl (Sublist.refl _) v.bounded)
    | inr (d, put, (same, part, bounded)) ↦
        rw (put, pilled) (with_dest d h.full_stops roomy_stops same part bounded)
  ]

  restart-IsAccounted :
      IsAccounted ops (step ops h finish_stop) × IsAccounted ops (step ops h restart)
  unfolding step stop_finish
  restart-IsAccounted =
      let (same, queue) = same_stats h.dest in
      (
        with_dest (stop_finish ops h.dest) h.full_stops h.roomy_stops refl (Sublist.refl _)
            v.bounded,
        with_dest (start h.dest).0 h.full_stops h.roomy_stops same (rw queue (Sublist.refl _))
            (rw queue v.bounded),
      )

  held_order :
      (held : Option Bytes)
      → h.held ≡ held
      → Sublist (h.delivered ++ (held_list held ++ payloads h.dest.queue.items)) h.accepted
  held_order held e =
      subst (λ o. Sublist (h.delivered ++ (held_list o ++ payloads h.dest.queue.items)) h.accepted)
        e v.order

  took-IsAccounted : (held : Option Bytes) → h.held ≡ held → IsAccounted ops (took ops held h)
  unfolding took
  took-IsAccounted (some bytes) e = v
  took-IsAccounted none e =
      let (got, d) = take_item h.dest in
      let (same, shape, bounded) = take_item_parts ops h.dest v.bounded in
      record {
        order = subst (λ l. Sublist (h.delivered ++ l) h.accepted) (sym shape) (held_order none e);
        sent_count = ap (λ (s : DestinationStats). s.messages_sent) same ∙ v.sent_count;
        sent_bytes = ap (λ (s : DestinationStats). s.bytes_sent) same ∙ v.sent_bytes;
        dropped = rw same v.dropped;
        attempts = rw same v.attempts;
        bounded = bounded;
      }

  without :
      (held : Option Bytes)
      → h.held ≡ held
      → Sublist (h.delivered ++ ([] ++ payloads h.dest.queue.items)) h.accepted
  without held e =
      Sublist.trans
        (Sublist.append (Sublist.refl h.delivered)
          (sublist-append_right (held_list held) (payloads h.dest.queue.items)))
        (held_order held e)

  prepared-IsAccounted :
      (now : ℕ) (held : Option Bytes) → h.held ≡ held → IsAccounted ops (prepared ops now held h)
  unfolding prepared
  prepared-IsAccounted now none e = v
  prepared-IsAccounted now (some bytes) e =
      let d = ensure_connected ops now h.dest in
      let (part, bounded, sent_same, bytes_same, dropped_same, attempts) =
        ensure_connected_parts ops now h.dest v.bounded in
      by_branches (IsAccounted ops) h.cleared (λ past. v)
        (λ before.
          by_branches (IsAccounted ops) (ops.is_connected d.remote)
            (λ on. record {
              order = order_without h.delivered (held_list h.held) part v.order;
              sent_count = sent_same ∙ v.sent_count;
              sent_bytes = bytes_same ∙ v.sent_bytes;
              dropped = omega (arith, dropped_same, v.dropped);
              attempts = attempts v.attempts;
              bounded = bounded;
            })
            (λ off. record {
              order =
                  Sublist.trans (order_without h.delivered [] part (Sublist.refl _))
                    (without (some bytes) e);
              sent_count = sent_same ∙ v.sent_count;
              sent_bytes = bytes_same ∙ v.sent_bytes;
              dropped = omega (arith, dropped_same, v.dropped);
              attempts = attempts v.attempts;
              bounded = bounded;
            }))

  sent-IsAccounted :
      (now : ℕ) (held : Option Bytes) → h.held ≡ held → IsAccounted ops (sent ops now held h)
  unfolding sent total
  sent-IsAccounted now none e = v
  sent-IsAccounted now (some bytes) e =
      let queued = payloads h.dest.queue.items in
      by_branches (IsAccounted ops) h.cleared
        (λ past. elim (Option-cases (ops.send_data bytes h.dest.remote).0) [
          | inl fine ↦
              rw (fine, chunk_sent ops now bytes h.dest fine)
                (record {
                  order =
                      subst (λ l. Sublist l h.accepted)
                        (sym (append_assoc h.delivered (bytes ∷ []) queued))
                        (held_order (some bytes) e);
                  sent_count = omega (arith, v.sent_count, length-append h.delivered (bytes ∷ []));
                  sent_bytes = omega (arith, v.sent_bytes, total-append h.delivered (bytes ∷ []));
                  dropped = v.dropped;
                  attempts = v.attempts;
                  bounded = v.bounded;
                })
          | inr (error, raised) ↦
              rw (raised, chunk_failed ops now bytes h.dest error raised)
                (record {
                  order = without (some bytes) e;
                  sent_count = v.sent_count;
                  sent_bytes = v.sent_bytes;
                  dropped = v.dropped;
                  attempts = v.attempts;
                  bounded = v.bounded;
                })
        ])
        (λ before. v)

  step-IsAccounted : (e : Event) → IsAccounted ops (step ops h e)
  unfolding step
  step-IsAccounted (offer bytes) = offer-IsAccounted bytes
  step-IsAccounted take = took-IsAccounted h.held refl
  step-IsAccounted (prepare now) = prepared-IsAccounted now h.held refl
  step-IsAccounted (send now) = sent-IsAccounted now h.held refl
  step-IsAccounted signal_stop = signal-IsAccounted
  step-IsAccounted stop_room = roomed-IsAccounted h.full_stops
  step-IsAccounted stop_pill = pilled-IsAccounted h.roomy_stops
  step-IsAccounted finish_stop = restart-IsAccounted.0
  step-IsAccounted restart = restart-IsAccounted.1

-- In any order of offers, parts of rounds and of stops, and starts: the chunks sent, then the one held,
-- then those queued are some of the accepted chunks in the order of their acceptance, each at most
-- once; messages_sent and bytes_sent count what was sent; every offer is accepted or counted as
-- dropped; every connection attempt is counted as a success or a failure; and the queue stays
-- within its maximum size.
pub run-IsAccounted :
    {R : Type 0} (ops : Remote R) (h : History R) (events : List Event)
    → IsAccounted ops h
    → IsAccounted ops (run ops h events)
unfolding run
run-IsAccounted ops h [] v = v
run-IsAccounted ops h (e ∷ events) v =
    run-IsAccounted ops (step ops h e) events (step-IsAccounted ops h v e)
