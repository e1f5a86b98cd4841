-- ===== src/Pipeline/Relay/Runs.antt =====
-- The pipeline of src/sp_rtk_base_relay/core/data_pipeline.py through any events.
mod Tests
use sp_rtk_base_relay.Prelude.{
  ℕ, ◌+◌, ◌≤◌, ◌≡◌, refl, ◌∙◌, sym, ap, subst, inl, inr, Bool, true, false, none, some, List, [],
  ◌∷◌, ◌++◌, append-nil, arith, Bool-cases, by_branches, if◌then◌else◌,
}
use sp_rtk_base_relay.Rtcm.{Bytes}
use sp_rtk_base_relay.Queue.{Queue, new, present}
use sp_rtk_base_relay.Client.{
  RtcmClient, Opening, Sending, connect, disconnect, on_heartbeat_timeout,
}
use sp_rtk_base_relay.Pipeline.{
  Pipeline, Halt, checks, Reading, InputAnswer, connects, refuses, raises, Begun, new_pipeline,
  request_restart, finalize_shutdown, cleanup_connections, start_relay, start_input, start_failed,
  start_connected,
}
use sp_rtk_base_relay.Pipeline.Relay.{
  Thread, over, fresh, waits, carries, halting, Relay, Event, start, read, put, test, get, send,
  stop, restart, other_halts, reader_halts, coordinator_halts, timeout, finish, started, read_at,
  put_at, test_at, get_at, send_at, reader_halt_at, coordinator_halt_at, halt_other, finish_at,
  step, run, is_looping, IsCounted, IsWhole, IsIdle, IsRelayed,
}
use sp_rtk_base_relay.Pipeline.Relay.Halts.{request_restart-IsCounted, halt_other-IsKept}
use sp_rtk_base_relay.Pipeline.Relay.Steps.{kept-IsRelayed}
use sp_rtk_base_relay.Pipeline.Relay.Reader.{
  same-IsRelayed, read-IsRelayed, put-IsRelayed, reader_halt-IsRelayed,
}
use sp_rtk_base_relay.Pipeline.Relay.Coordinator.{
  test-IsRelayed, get-IsRelayed, coordinator_halt-IsRelayed,
}
use sp_rtk_base_relay.Pipeline.Relay.Sends.{send-IsRelayed}
use sp_rtk_base_relay.Pipeline.Relay.Starts.{ended-IsRelayed, start-IsRelayed}

-- Between two runs.
abbrev pub new_relay : RtcmClient → Bool → Relay
new_relay client collects = record {
  pipeline = new_pipeline client collects;
  active = false;
  reader = over;
  coordinator = over;
  others = [];
  got = [];
  sent = [];
  requests = 0;
}

pub new_relay-IsRelayed :
    (client : RtcmClient) (collects : Bool) → IsRelayed (new_relay client collects)
unfolding new present
new_relay-IsRelayed client collects = record {
  counted = record { restarts = refl; starts = omega arith; bounded = λ limited. omega arith };
  prefix = ([], refl);
  whole = λ goes_on. absurd (cc goes_on);
  idle = λ off. record { empty = refl; halted = refl; reader_over = refl; coordinator_over = refl };
}

module _ (r : Relay) (v : IsRelayed r) where
  read_at-IsRelayed :
      (t : Thread) (reading : Reading) → r.reader ≡ t → IsRelayed (read_at t reading r)
  unfolding read_at
  read_at-IsRelayed over reading e = v
  read_at-IsRelayed waits reading e = v
  read_at-IsRelayed (carries bytes) reading e = v
  read_at-IsRelayed (halting h) reading e = v
  read_at-IsRelayed fresh reading e =
      read-IsRelayed r (subst (λ (t : Thread). IsRelayed (record r { reader = t })) e v) reading

  put_at-IsRelayed : (t : Thread) → r.reader ≡ t → IsRelayed (put_at t r)
  unfolding put_at
  put_at-IsRelayed over e = v
  put_at-IsRelayed fresh e = v
  put_at-IsRelayed waits e = v
  put_at-IsRelayed (halting h) e = v
  put_at-IsRelayed (carries bytes) e =
      put-IsRelayed r bytes (subst (λ (t : Thread). IsRelayed (record r { reader = t })) e v)

  test_at-IsRelayed : (t : Thread) → r.coordinator ≡ t → IsRelayed (test_at t r)
  unfolding test_at
  test_at-IsRelayed over e = v
  test_at-IsRelayed waits e = v
  test_at-IsRelayed (carries bytes) e = v
  test_at-IsRelayed (halting h) e = v
  test_at-IsRelayed fresh e =
      test-IsRelayed r (subst (λ (t : Thread). IsRelayed (record r { coordinator = t })) e v)

  get_at-IsRelayed : (t : Thread) → r.coordinator ≡ t → IsRelayed (get_at t r)
  unfolding get_at
  get_at-IsRelayed over e = v
  get_at-IsRelayed fresh e = v
  get_at-IsRelayed (carries bytes) e = v
  get_at-IsRelayed (halting h) e = v
  get_at-IsRelayed waits e =
      get-IsRelayed r (subst (λ (t : Thread). IsRelayed (record r { coordinator = t })) e v)

  reader_halt_at-IsRelayed : (t : Thread) → r.reader ≡ t → IsRelayed (reader_halt_at t r)
  unfolding reader_halt_at
  reader_halt_at-IsRelayed over e = v
  reader_halt_at-IsRelayed fresh e = v
  reader_halt_at-IsRelayed waits e = v
  reader_halt_at-IsRelayed (carries bytes) e = v
  reader_halt_at-IsRelayed (halting h) e =
      reader_halt-IsRelayed r h (subst (λ (t : Thread). IsRelayed (record r { reader = t })) e v)

  coordinator_halt_at-IsRelayed :
      (t : Thread) → r.coordinator ≡ t → IsRelayed (coordinator_halt_at t r)
  unfolding coordinator_halt_at
  coordinator_halt_at-IsRelayed over e = v
  coordinator_halt_at-IsRelayed fresh e = v
  coordinator_halt_at-IsRelayed waits e = v
  coordinator_halt_at-IsRelayed (carries bytes) e = v
  coordinator_halt_at-IsRelayed (halting h) e =
      coordinator_halt-IsRelayed r h
        (subst (λ (t : Thread). IsRelayed (record r { coordinator = t })) e v)

  send_at-IsRelayed :
      (t : Thread) (now : ℕ) (sending : Sending) (breaks : Bool)
      → r.coordinator ≡ t
      → IsRelayed (send_at t now sending breaks r)
  unfolding send_at
  send_at-IsRelayed over now sending breaks e = v
  send_at-IsRelayed fresh now sending breaks e = v
  send_at-IsRelayed waits now sending breaks e = v
  send_at-IsRelayed (halting h) now sending breaks e = v
  send_at-IsRelayed (carries bytes) now sending breaks e =
      send-IsRelayed r bytes (subst (λ (t : Thread). IsRelayed (record r { coordinator = t })) e v)
        now sending breaks

  finish_at-IsRelayed :
      (t u : Thread) → r.reader ≡ t → r.coordinator ≡ u → IsRelayed (finish_at t u r)
  unfolding finish_at finalize_shutdown cleanup_connections
  finish_at-IsRelayed over over e f =
      ended-IsRelayed r v false (disconnect r.pipeline.client) r.pipeline.stats.pipeline_starts e f
        (omega arith)
  finish_at-IsRelayed over fresh e f = v
  finish_at-IsRelayed over waits e f = v
  finish_at-IsRelayed over (carries bytes) e f = v
  finish_at-IsRelayed over (halting h) e f = v
  finish_at-IsRelayed fresh u e f = v
  finish_at-IsRelayed waits u e f = v
  finish_at-IsRelayed (carries bytes) u e f = v
  finish_at-IsRelayed (halting h) u e f = v

  step-IsRelayed : (event : Event) → IsRelayed (step r event)
  unfolding step request_restart
  step-IsRelayed (start answer now key opening) =
      by_branches IsRelayed r.active (λ on. v)
        (λ off. start-IsRelayed r v off answer now key opening)
  step-IsRelayed (read reading) = read_at-IsRelayed r.reader reading refl
  step-IsRelayed put = put_at-IsRelayed r.reader refl
  step-IsRelayed test = test_at-IsRelayed r.coordinator refl
  step-IsRelayed get = get_at-IsRelayed r.coordinator refl
  step-IsRelayed (send now sending breaks) = send_at-IsRelayed r.coordinator now sending breaks refl
  step-IsRelayed stop =
      kept-IsRelayed r v r.pipeline r.requests (checks ∷ r.others) v.counted refl (λ off. off)
  step-IsRelayed restart =
      kept-IsRelayed r v (request_restart r.pipeline) (r.requests + 1) (checks ∷ r.others)
        (request_restart-IsCounted r.pipeline r.requests v.counted) refl (λ off. off)
  step-IsRelayed (other_halts n) =
      let kept = halt_other-IsKept n r.others r.pipeline in
      let (p, others) = halt_other n r.others r.pipeline in
      kept-IsRelayed r v p r.requests others (kept.counted r.requests v.counted) kept.same_present
        kept.still_off
  step-IsRelayed reader_halts = reader_halt_at-IsRelayed r.reader refl
  step-IsRelayed coordinator_halts = coordinator_halt_at-IsRelayed r.coordinator refl
  step-IsRelayed timeout =
      same-IsRelayed r (on_heartbeat_timeout r.pipeline.client) r.pipeline.input_connected v
  step-IsRelayed finish = finish_at-IsRelayed r.reader r.coordinator refl refl

-- The older pipeline, from a state of which this holds, as it does of a new one, through the parts of
-- its two threads in any order, with starts, and with any number of other threads at once in
-- stop_relay(), each at any of its parts: what its client sent since the last start is the beginning
-- of what its input gave, in order, without a gap; as long as the coordinator's loop goes on, the rest
-- is with it, in the queue or with the input thread, of which nothing is lost while the input thread's
-- loop goes on, and one chunk at most when it is over; restarts are counted for errors and requests;
-- the queue stays bounded; and outside start_relay() the pipeline does not run, both loops are over,
-- and the queue holds no data.
pub run-IsRelayed : (r : Relay) (events : List Event) → IsRelayed r → IsRelayed (run r events)
unfolding run
run-IsRelayed r [] v = v
run-IsRelayed r (event ∷ events) v = run-IsRelayed (step r event) events (step-IsRelayed r v event)
