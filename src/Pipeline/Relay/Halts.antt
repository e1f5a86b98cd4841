-- ===== src/Pipeline/Relay/Halts.antt =====
-- What the parts of stop_relay() and the errors of src/sp_rtk_base_relay/core/data_pipeline.py keep.
use sp_rtk_base_relay.Prelude.{
  ℕ, zero, suc, ◌+◌, ◌≡◌, refl, ◌∙◌, inl, inr, false, Option, none, List, [], ◌∷◌, append-nil,
  arith,
}
use sp_rtk_base_relay.Rtcm.{Bytes}
use sp_rtk_base_relay.Queue.{Queue, present, put_nowait}
use sp_rtk_base_relay.Queue.Laws.{IsBounded, put_cases, put-IsBounded, present-append}
use sp_rtk_base_relay.Pipeline.{
  Pipeline, put_stop, Halt, checks, lowers, signals, wakes, counts, stop_relay, request_restart,
  handle_input_error, handle_rtcm_error, handle_coordination_error,
}
use sp_rtk_base_relay.Pipeline.Relay.{IsCounted, halt_other}

-- What is counted stays so, the queue keeps its data, and a pipeline that does not run still does not.
pub record IsKept (p p' : Pipeline) : Type 0 where
  pub counted : (n : ℕ) → IsCounted p n → IsCounted p' n
  pub same_present : present p'.data_queue.items ≡ present p.data_queue.items
  pub still_off : p.running ≡ false → p'.running ≡ false

pub nothing-IsKept : (p : Pipeline) → IsKept p p
nothing-IsKept p = record { counted = λ n v. v; same_present = refl; still_off = λ off. off }

put_stop-present :
    (q : Queue (Option Bytes))
    → (present (put_stop (put_nowait q none) q).items ≡ present q.items)
      × (IsBounded q → IsBounded (put_stop (put_nowait q none) q))
unfolding present
put_stop-present q = elim (put_cases q none) [
  | inl (room, e) ↦ rw e (
    present-append q.items (none ∷ []) ∙ append-nil (present q.items),
    λ bounded. put-IsBounded q none bounded e,
  )
  | inr (full, e) ↦ rw e (refl, λ bounded. bounded)
]

pub stop_relay-IsKept : (h : Halt) (p : Pipeline) → IsKept p (stop_relay h p).0
unfolding stop_relay
stop_relay-IsKept checks p = nothing-IsKept p
stop_relay-IsKept lowers p = record {
  counted = λ n v. record { restarts = v.restarts; starts = v.starts; bounded = v.bounded };
  same_present = refl;
  still_off = λ off. refl;
}
stop_relay-IsKept signals p = record {
  counted = λ n v. record { restarts = v.restarts; starts = v.starts; bounded = v.bounded };
  same_present = refl;
  still_off = λ off. off;
}
stop_relay-IsKept wakes p = record {
  counted = λ n v. record {
    restarts = v.restarts;
    starts = v.starts;
    bounded = (put_stop-present p.data_queue).1 v.bounded;
  };
  same_present = (put_stop-present p.data_queue).0;
  still_off = λ off. off;
}
stop_relay-IsKept counts p = record {
  counted = λ n v. record { restarts = v.restarts; starts = v.starts; bounded = v.bounded };
  same_present = refl;
  still_off = λ off. off;
}

pub halt_other-IsKept :
    (n : ℕ) (others : List Halt) (p : Pipeline) → IsKept p (halt_other n others p).0
unfolding halt_other
halt_other-IsKept n [] p = nothing-IsKept p
halt_other-IsKept zero (h ∷ others) p = stop_relay-IsKept h p
halt_other-IsKept (suc n) (h ∷ others) p = halt_other-IsKept n others p

module _ (p : Pipeline) where
  pub request_restart-IsCounted : (n : ℕ) → IsCounted p n → IsCounted (request_restart p) (n + 1)
  unfolding request_restart
  request_restart-IsCounted n v = record {
    restarts = omega (arith, v.restarts);
    starts = v.starts;
    bounded = v.bounded;
  }

  pub input_error-IsKept : IsKept p (handle_input_error p)
  unfolding handle_input_error request_restart
  input_error-IsKept = record {
    counted = λ n v. record {
      restarts = omega (arith, v.restarts);
      starts = v.starts;
      bounded = v.bounded;
    };
    same_present = refl;
    still_off = λ off. off;
  }

  pub rtcm_error-IsKept : IsKept p (handle_rtcm_error p)
  unfolding handle_rtcm_error request_restart
  rtcm_error-IsKept = record {
    counted = λ n v. record {
      restarts = omega (arith, v.restarts);
      starts = v.starts;
      bounded = v.bounded;
    };
    same_present = refl;
    still_off = λ off. off;
  }

  pub coordination_error-IsKept : IsKept p (handle_coordination_error p)
  unfolding handle_coordination_error request_restart
  coordination_error-IsKept = record {
    counted = λ n v. record {
      restarts = omega (arith, v.restarts);
      starts = v.starts;
      bounded = v.bounded;
    };
    same_present = refl;
    still_off = λ off. off;
  }
