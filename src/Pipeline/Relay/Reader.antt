-- ===== src/Pipeline/Relay/Reader.antt =====
-- The input thread of src/sp_rtk_base_relay/core/data_pipeline.py in a run of the pipeline.
use sp_rtk_base_relay.Prelude.{
  ℕ, ◌≡◌, refl, ◌∙◌, sym, ap, inl, inr, Bool, true, not, Option, some, List, [], ◌∷◌, ◌++◌,
  append_assoc, append-nil, arith, Bool-cases, by_branches,
}
use sp_rtk_base_relay.Rtcm.{Bytes}
use sp_rtk_base_relay.Queue.{Queue, present}
use sp_rtk_base_relay.Queue.Laws.{IsBounded, present-append, put_cases, put-IsBounded}
use sp_rtk_base_relay.Client.{RtcmClient}
use sp_rtk_base_relay.Pipeline.{
  Pipeline, Halt, checks, stop_relay, Next, Reading, reads, reads_nothing, read_raises, input_read,
  after_read, input_put, handle_input_error, loop_goes_on,
}
use sp_rtk_base_relay.Pipeline.Relay.{
  over, fresh, carries, halting, after_halt, Relay, held_by, read_at, read_with, put_at,
  reader_halt_at, IsCounted, IsRelayed,
}
use sp_rtk_base_relay.Pipeline.Relay.Halts.{nothing-IsKept, stop_relay-IsKept, input_error-IsKept}
use sp_rtk_base_relay.Pipeline.Relay.Steps.{kept-IsRelayed, reader-IsRelayed, after_halt-ends}

-- What the queue, the flags and the statistics decide is not touched by the rest.
pub same-IsCounted :
    (p : Pipeline) (n : ℕ) (client : RtcmClient) (input : Bool)
    → IsCounted p n
    → IsCounted (record p { client = client; input_connected = input }) n
same-IsCounted p n client input v = record {
  restarts = v.restarts;
  starts = v.starts;
  bounded = v.bounded;
}

pub same-IsRelayed :
    (r : Relay) (client : RtcmClient) (input : Bool)
    → IsRelayed r
    → IsRelayed
        (record r { pipeline = record r.pipeline { client = client; input_connected = input } })
same-IsRelayed r client input v =
    kept-IsRelayed r v (record r.pipeline { client = client; input_connected = input }) r.requests
      r.others (same-IsCounted r.pipeline r.requests client input v.counted) refl (λ off. off)

behind :
    (sent held queued lost more : List Bytes)
    → lost ≡ []
    → (sent ++ (held ++ (queued ++ lost))) ++ more ≡ sent ++ (held ++ (queued ++ more))
behind sent held queued lost more h = rw h (
    ap (λ l. (sent ++ (held ++ l)) ++ more) (append-nil queued)
    ∙ append_assoc sent (held ++ queued) more
    ∙ ap (λ l. sent ++ l) (append_assoc held queued more))

module _ (r : Relay) (v : IsRelayed (record r { reader = fresh })) where
  IsReadPart : Pipeline × Next → Type 0
  IsReadPart o = IsRelayed (read_with o r)

  reader_active : r.active ≡ true
  reader_active = elim (Bool-cases r.active) [
    | inl on ↦ on
    | inr off ↦ absurd (cc ((v.idle off).reader_over))
  ]

  error-IsRelayed :
      (input : Bool)
      → IsRelayed (record r {
        pipeline = handle_input_error (record r.pipeline { input_connected = input });
        reader = halting checks;
      })
  error-IsRelayed input =
      let p : Pipeline = record r.pipeline { input_connected = input } in
      let kept = input_error-IsKept p in
      reader-IsRelayed (record r { reader = fresh }) v (handle_input_error p) (halting checks)
        (record {
          counted = λ n w. kept.counted n (same-IsCounted r.pipeline n r.pipeline.client input w);
          same_present = kept.same_present;
          still_off = kept.still_off;
        })
        reader_active (refl, refl)

  gone_error-IsRelayed :
      IsRelayed (record r { pipeline = handle_input_error r.pipeline; reader = halting checks })
  gone_error-IsRelayed =
      reader-IsRelayed (record r { reader = fresh }) v (handle_input_error r.pipeline)
        (halting checks) (input_error-IsKept r.pipeline) reader_active (refl, refl)

  got-IsRelayed :
      (bytes : Bytes) → IsRelayed (record r { reader = carries bytes; got = r.got ++ bytes ∷ [] })
  got-IsRelayed bytes =
      let (more, e) = v.prefix in
      record {
        counted = v.counted;
        prefix = (
          more ++ bytes ∷ [],
          ap (λ l. l ++ bytes ∷ []) e ∙ append_assoc r.sent more (bytes ∷ []),
        );
        whole = λ goes_on.
            let w = v.whole goes_on in
            record {
              lost = [];
              order =
                  ap (λ l. l ++ bytes ∷ []) (w.order)
                  ∙ behind r.sent (held_by r.coordinator) (present r.pipeline.data_queue.items)
                      w.lost (bytes ∷ []) (w.none_lost refl);
              none_lost = λ h. refl;
              one_lost = omega arith;
            };
        idle = λ off. absurd (cc (reader_active, off));
      }

  after_read-IsRelayed :
      (reading : Reading) → IsRelayed (read_with (after_read reading r.pipeline) r)
  unfolding after_read
  after_read-IsRelayed (reads bytes) = got-IsRelayed bytes
  after_read-IsRelayed (reads_nothing still) =
      same-IsRelayed (record r { reader = fresh }) r.pipeline.client still v
  after_read-IsRelayed (read_raises still) = error-IsRelayed still

  pub read-IsRelayed : (reading : Reading) → IsRelayed (read_at fresh reading r)
  unfolding input_read IsReadPart
  read-IsRelayed reading =
      by_branches IsReadPart (not (loop_goes_on r.pipeline))
        (λ off.
          reader-IsRelayed (record r { reader = fresh }) v r.pipeline over
            (nothing-IsKept r.pipeline) reader_active (refl, refl))
        (λ on.
          by_branches IsReadPart (not r.pipeline.input_connected) (λ gone. gone_error-IsRelayed)
            (λ there. after_read-IsRelayed reading))

module _ (r : Relay) (bytes : Bytes) (v : IsRelayed (record r { reader = carries bytes })) where
  carrier_active : r.active ≡ true
  carrier_active = elim (Bool-cases r.active) [
    | inl on ↦ on
    | inr off ↦ absurd (cc ((v.idle off).reader_over))
  ]

  queued-IsRelayed :
      (q : Queue (Option Bytes))
      → q.items ≡ r.pipeline.data_queue.items ++ some bytes ∷ []
      → IsBounded q
      → IsRelayed (record r { pipeline = record r.pipeline { data_queue = q }; reader = fresh })
  unfolding present
  queued-IsRelayed q e bounded =
      let there : present q.items ≡ present r.pipeline.data_queue.items ++ bytes ∷ [] =
        ap present e ∙ present-append r.pipeline.data_queue.items (some bytes ∷ []) in
      record {
        counted = record {
          restarts = v.counted.restarts;
          starts = v.counted.starts;
          bounded = bounded;
        };
        prefix = v.prefix;
        whole = λ goes_on.
            let w = v.whole goes_on in
            record {
              lost = w.lost;
              order =
                  w.order
                  ∙ ap (λ l. r.sent ++ (held_by r.coordinator ++ l))
                      (sym (append_assoc (present r.pipeline.data_queue.items) (bytes ∷ []) w.lost)
                        ∙ ap (λ l. l ++ w.lost) (sym there));
              none_lost = λ on. w.none_lost refl;
              one_lost = w.one_lost;
            };
        idle = λ off. absurd (cc (carrier_active, off));
      }

  pub put-IsRelayed : IsRelayed (put_at (carries bytes) r)
  unfolding input_put
  put-IsRelayed = elim (put_cases r.pipeline.data_queue (some bytes)) [
    | inl (room, e) ↦
        rw (e, input_put)
          (queued-IsRelayed
            (record {
              items = r.pipeline.data_queue.items ++ some bytes ∷ [];
              maxsize = r.pipeline.data_queue.maxsize;
            })
            refl (put-IsBounded r.pipeline.data_queue (some bytes) v.counted.bounded e))
    | inr (full, e) ↦
        rw (e, input_put)
          (reader-IsRelayed (record r { reader = carries bytes }) v (handle_input_error r.pipeline)
            (halting checks) (input_error-IsKept r.pipeline) carrier_active (refl, refl))
  ]

-- A part of stop_relay() after an error of the input thread.
pub reader_halt-IsRelayed :
    (r : Relay) (h : Halt)
    → IsRelayed (record r { reader = halting h })
    → IsRelayed (reader_halt_at (halting h) r)
unfolding reader_halt_at
reader_halt-IsRelayed r h v =
    let active : r.active ≡ true = elim (Bool-cases r.active) [
      | inl on ↦ on
      | inr off ↦ absurd (cc ((v.idle off).reader_over))
    ] in
    let (p, next) = stop_relay h r.pipeline in
    reader-IsRelayed (record r { reader = halting h }) v p (after_halt next)
      (stop_relay-IsKept h r.pipeline) active (after_halt-ends next)
