-- ===== src/Pipeline/Relay/Steps.antt =====
-- What a part of stop_relay(), or the end of a loop, keeps of a run of the pipeline of
-- src/sp_rtk_base_relay/core/data_pipeline.py.
use sp_rtk_base_relay.Prelude.{
  ℕ, ◌≡◌, ◌≤◌, refl, ◌∙◌, sym, ap, true, false, Option, none, some, List, [], ◌++◌, length, arith,
}
use sp_rtk_base_relay.Rtcm.{Bytes}
use sp_rtk_base_relay.Queue.{present}
use sp_rtk_base_relay.Pipeline.{Pipeline, Halt}
use sp_rtk_base_relay.Pipeline.Relay.{
  Thread, over, fresh, waits, carries, halting, Relay, held_by, is_looping, after_halt, IsCounted,
  IsRelayed,
}
use sp_rtk_base_relay.Pipeline.Relay.Halts.{IsKept}

-- What a thread has and what was lost before are one chunk at most.
one_lost_with :
    (t : Thread) (lost : List Bytes)
    → (is_looping t ≡ true → lost ≡ [])
    → length lost ≤ 1
    → length (held_by t ++ lost) ≤ 1
one_lost_with over lost none_lost one_lost = one_lost
one_lost_with fresh lost none_lost one_lost = one_lost
one_lost_with waits lost none_lost one_lost = one_lost
one_lost_with (carries bytes) lost none_lost one_lost = omega (arith, ap length (none_lost refl))
one_lost_with (halting h) lost none_lost one_lost = one_lost

pub after_halt-ends :
    (next : Option Halt) → (is_looping (after_halt next) ≡ false) × (held_by (after_halt next) ≡ [])
after_halt-ends none = (refl, refl)
after_halt-ends (some h) = (refl, refl)

module _ (r : Relay) (v : IsRelayed r) where
  requeued :
      (p : Pipeline)
      → present p.data_queue.items ≡ present r.pipeline.data_queue.items
      → is_looping r.coordinator ≡ true
      → (lost : List Bytes) × (is_looping r.reader ≡ true → lost ≡ [])
        × (length lost ≤ 1)
        × (r.got
            ≡ r.sent
              ++ (held_by r.coordinator
                  ++ (present p.data_queue.items ++ (held_by r.reader ++ lost))))
  requeued p same goes_on =
      let w = v.whole goes_on in
      (
        w.lost,
        w.none_lost,
        w.one_lost,
        w.order
            ∙ ap (λ l. r.sent ++ (held_by r.coordinator ++ (l ++ (held_by r.reader ++ w.lost))))
                (sym same),
      )

  -- No thread's loop is concerned.
  pub kept-IsRelayed :
      (p : Pipeline) (n : ℕ) (others : List Halt)
      → IsCounted p n
      → present p.data_queue.items ≡ present r.pipeline.data_queue.items
      → (r.pipeline.running ≡ false → p.running ≡ false)
      → IsRelayed (record r { pipeline = p; requests = n; others = others })
  kept-IsRelayed p n others counted same still_off = record {
    counted = counted;
    prefix = v.prefix;
    whole = λ goes_on.
        let (lost, none_lost, one_lost, order) = requeued p same goes_on in
        record { lost = lost; order = order; none_lost = none_lost; one_lost = one_lost };
    idle = λ off.
        let i = v.idle off in
        record {
          empty = same ∙ i.empty;
          halted = still_off i.halted;
          reader_over = i.reader_over;
          coordinator_over = i.coordinator_over;
        };
  }

  -- The input thread's loop is over; what it has is given up.
  pub reader-IsRelayed :
      (p : Pipeline) (t : Thread)
      → IsKept r.pipeline p
      → r.active ≡ true
      → (is_looping t ≡ false) × (held_by t ≡ [])
      → IsRelayed (record r { pipeline = p; reader = t })
  reader-IsRelayed p t kept active (ended, empty) = record {
    counted = kept.counted r.requests v.counted;
    prefix = v.prefix;
    whole = λ goes_on.
        let (lost, none_lost, one_lost, order) = requeued p kept.same_present goes_on in
        record {
          lost = held_by r.reader ++ lost;
          order =
              order
              ∙ ap
                  (λ l.
                    r.sent
                    ++ (held_by r.coordinator
                        ++ (present p.data_queue.items ++ (l ++ (held_by r.reader ++ lost)))))
                  (sym empty);
          none_lost = λ on. absurd (cc (on, ended));
          one_lost = one_lost_with r.reader lost none_lost one_lost;
        };
    idle = λ off. absurd (cc (off, active));
  }

  -- The coordinator's loop is over, with what the client sent.
  pub coordinator-IsRelayed :
      (p : Pipeline) (t : Thread) (sent : List Bytes)
      → IsCounted p r.requests
      → r.active ≡ true
      → is_looping t ≡ false
      → ((more : List Bytes) × (r.got ≡ sent ++ more))
      → IsRelayed (record r { pipeline = p; coordinator = t; sent = sent })
  coordinator-IsRelayed p t sent counted active ended prefix = record {
    counted = counted;
    prefix = prefix;
    whole = λ goes_on. absurd (cc (goes_on, ended));
    idle = λ off. absurd (cc (off, active));
  }
