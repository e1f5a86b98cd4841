-- ===== src/Pipeline/Relay/Coordinator.antt =====
-- The coordinator's loop of src/sp_rtk_base_relay/core/data_pipeline.py in a run of the pipeline.
use sp_rtk_base_relay.Prelude.{
  ◌≡◌, refl, ◌∙◌, ap, ◌⊎◌, inl, inr, Bool, true, not, Option, none, some, List, [], ◌∷◌, ◌++◌,
  length, arith, Bool-cases, by_branches, if◌then◌else◌,
}
use sp_rtk_base_relay.Rtcm.{Bytes}
use sp_rtk_base_relay.Queue.{Queue, present, get_nowait, get_items}
use sp_rtk_base_relay.Client.{is_connected}
use sp_rtk_base_relay.Pipeline.{
  Pipeline, Halt, checks, stop_relay, Next, halts, loops, loop_goes_on, handle_input_error,
  handle_rtcm_error, check_connections_health, got_item, coordinator_get,
}
use sp_rtk_base_relay.Pipeline.Relay.{
  Thread, over, fresh, waits, carries, halting, after_halt, Relay, held_by, test_at, get_at,
  get_with, coordinator_halt_at, IsCounted, IsRelayed,
}
use sp_rtk_base_relay.Pipeline.Relay.Halts.{
  stop_relay-IsKept, input_error-IsKept, rtcm_error-IsKept,
}
use sp_rtk_base_relay.Pipeline.Relay.Steps.{coordinator-IsRelayed, after_halt-ends}

get_cases :
    {A : Type 0} (q : Queue A)
    → ((q.items ≡ []) × (get_nowait q ≡ none))
      ⊎ ((item : A) × (rest : List A) × (q.items ≡ item ∷ rest)
          × (get_nowait q ≡ some (item, record { items = rest; maxsize = q.maxsize })))
unfolding get_nowait get_items
get_cases {A} q = go q.items
  where
    go :
        (items : List A)
        → ((items ≡ []) × (get_items items q.maxsize ≡ none))
          ⊎ ((item : A) × (rest : List A) × (items ≡ item ∷ rest)
              × (get_items items q.maxsize
                  ≡ some (item, record { items = rest; maxsize = q.maxsize })))
    go [] = inl (refl, refl)
    go (item ∷ rest) = inr (item, rest, refl, refl)

module _ (r : Relay) (v : IsRelayed (record r { coordinator = fresh })) where
  tester_active : r.active ≡ true
  tester_active = elim (Bool-cases r.active) [
    | inl on ↦ on
    | inr off ↦ absurd (cc ((v.idle off).coordinator_over))
  ]

  waits-IsRelayed : IsRelayed (record r { coordinator = waits })
  waits-IsRelayed = record {
    counted = v.counted;
    prefix = v.prefix;
    whole = λ goes_on.
        let w = v.whole refl in
        record { lost = w.lost; order = w.order; none_lost = w.none_lost; one_lost = w.one_lost };
    idle = λ off. absurd (cc (off, tester_active));
  }

  pub test-IsRelayed : IsRelayed (test_at fresh r)
  unfolding loop_goes_on
  test-IsRelayed =
      by_branches (λ (t : Thread). IsRelayed (record r { coordinator = t }))
        (loop_goes_on r.pipeline) (λ on. waits-IsRelayed)
        (λ off.
          coordinator-IsRelayed (record r { coordinator = fresh }) v r.pipeline over r.sent
            v.counted tester_active refl v.prefix)

module _ (r : Relay) (v : IsRelayed (record r { coordinator = waits })) where
  IsGetPart : Pipeline × Next → Type 0
  IsGetPart o = IsRelayed (get_with o r)

  IsHealthPart : Pipeline × Bool → Type 0
  IsHealthPart (p, healthy) = IsGetPart (p, if healthy then loops else halts)

  waiter_active : r.active ≡ true
  waiter_active = elim (Bool-cases r.active) [
    | inl on ↦ on
    | inr off ↦ absurd (cc ((v.idle off).coordinator_over))
  ]

  unhealthy-IsRelayed :
      (p : Pipeline)
      → IsCounted p r.requests
      → IsRelayed (record r { pipeline = p; coordinator = halting checks })
  unhealthy-IsRelayed p counted =
      coordinator-IsRelayed (record r { coordinator = waits }) v p (halting checks) r.sent counted
        waiter_active refl v.prefix

  healthy-IsRelayed : IsRelayed (record r { coordinator = fresh })
  healthy-IsRelayed = record {
    counted = v.counted;
    prefix = v.prefix;
    whole = λ goes_on.
        let w = v.whole refl in
        record { lost = w.lost; order = w.order; none_lost = w.none_lost; one_lost = w.one_lost };
    idle = λ off. absurd (cc (off, waiter_active));
  }

  health-IsRelayed : IsHealthPart (check_connections_health r.pipeline)
  unfolding check_connections_health IsHealthPart IsGetPart
  health-IsRelayed =
      by_branches IsHealthPart (not r.pipeline.input_connected)
        (λ gone.
          unhealthy-IsRelayed (handle_input_error r.pipeline)
            ((input_error-IsKept r.pipeline).counted r.requests v.counted))
        (λ there.
          by_branches IsHealthPart (not (is_connected r.pipeline.client))
            (λ gone.
              unhealthy-IsRelayed (handle_rtcm_error r.pipeline)
                ((rtcm_error-IsKept r.pipeline).counted r.requests v.counted))
            (λ connected. healthy-IsRelayed))

  shorter-IsCounted :
      (item : Option Bytes) (rest : List (Option Bytes))
      → r.pipeline.data_queue.items ≡ item ∷ rest
      → IsCounted
          (record r.pipeline {
            data_queue = record { items = rest; maxsize = r.pipeline.data_queue.maxsize };
          })
          r.requests
  shorter-IsCounted item rest e = record {
    restarts = v.counted.restarts;
    starts = v.counted.starts;
    bounded = λ limited. omega (arith, v.counted.bounded limited, ap length e);
  }

  taken-IsRelayed :
      (bytes : Bytes) (rest : List (Option Bytes))
      → r.pipeline.data_queue.items ≡ some bytes ∷ rest
      → IsRelayed (record r {
        pipeline = record r.pipeline {
          data_queue = record { items = rest; maxsize = r.pipeline.data_queue.maxsize };
        };
        coordinator = carries bytes;
      })
  unfolding present
  taken-IsRelayed bytes rest e = record {
    counted = shorter-IsCounted (some bytes) rest e;
    prefix = v.prefix;
    whole = λ goes_on.
        let w = v.whole refl in
        record {
          lost = w.lost;
          order = w.order ∙ ap (λ l. r.sent ++ (present l ++ (held_by r.reader ++ w.lost))) e;
          none_lost = w.none_lost;
          one_lost = w.one_lost;
        };
    idle = λ off. absurd (cc (off, waiter_active));
  }

  got_item-IsRelayed :
      (item : Option Bytes) (rest : List (Option Bytes))
      → r.pipeline.data_queue.items ≡ item ∷ rest
      → IsGetPart (
        record r.pipeline {
          data_queue = record { items = rest; maxsize = r.pipeline.data_queue.maxsize };
        },
        got_item r.pipeline.running item,
      )
  unfolding IsGetPart
  got_item-IsRelayed none rest e =
      coordinator-IsRelayed (record r { coordinator = waits }) v
        (record r.pipeline {
          data_queue = record { items = rest; maxsize = r.pipeline.data_queue.maxsize };
        })
        over r.sent (shorter-IsCounted none rest e) waiter_active refl v.prefix
  got_item-IsRelayed (some bytes) rest e =
      by_branches
        (λ (next : Next). IsGetPart (
          record r.pipeline {
            data_queue = record { items = rest; maxsize = r.pipeline.data_queue.maxsize };
          },
          next,
        ))
        r.pipeline.running (λ on. taken-IsRelayed bytes rest e)
        (λ off.
          coordinator-IsRelayed (record r { coordinator = waits }) v
            (record r.pipeline {
              data_queue = record { items = rest; maxsize = r.pipeline.data_queue.maxsize };
            })
            over r.sent (shorter-IsCounted (some bytes) rest e) waiter_active refl v.prefix)

  pub get-IsRelayed : IsRelayed (get_at waits r)
  unfolding coordinator_get IsGetPart IsHealthPart
  get-IsRelayed = elim (get_cases r.pipeline.data_queue) [
    | inl (empty, e) ↦ rw (e, coordinator_get) health-IsRelayed
    | inr (item, rest, items, e) ↦ rw (e, coordinator_get) (got_item-IsRelayed item rest items)
  ]

-- A part of stop_relay() after an error of the coordinator.
pub coordinator_halt-IsRelayed :
    (r : Relay) (h : Halt)
    → IsRelayed (record r { coordinator = halting h })
    → IsRelayed (coordinator_halt_at (halting h) r)
unfolding coordinator_halt_at
coordinator_halt-IsRelayed r h v =
    let active : r.active ≡ true = elim (Bool-cases r.active) [
      | inl on ↦ on
      | inr off ↦ absurd (cc ((v.idle off).coordinator_over))
    ] in
    let (p, next) = stop_relay h r.pipeline in
    coordinator-IsRelayed (record r { coordinator = halting h }) v p (after_halt next) r.sent
      ((stop_relay-IsKept h r.pipeline).counted r.requests v.counted) active
      (after_halt-ends next).0 v.prefix
