-- ===== src/Pipeline/Relay.antt =====
-- The older pipeline of src/sp_rtk_base_relay/core/data_pipeline.py from one start to the next, with
-- the parts of its threads, and what other threads call, in any order.
pub mod Halts
pub mod Steps
pub mod Reader
pub mod Coordinator
pub mod Sends
pub mod Starts
pub mod Runs
use sp_rtk_base_relay.Prelude.{
  ℕ, zero, suc, ◌+◌, ◌≤◌, ◌≡◌, Bool, true, false, Option, none, some, List, [], ◌∷◌, ◌++◌, length,
  if◌then◌else◌,
}
use sp_rtk_base_relay.Rtcm.{Bytes}
use sp_rtk_base_relay.Queue.{present}
use sp_rtk_base_relay.Queue.Laws.{IsBounded}
use sp_rtk_base_relay.Client.{Opening, Sending, on_heartbeat_timeout}
use sp_rtk_base_relay.Pipeline.{
  Pipeline, PipelineStats, Halt, checks, Next, ends, halts, loops, holds, Reading, InputAnswer,
  Begun, was_running, failed, begun, stop_relay, request_restart, loop_goes_on, input_read,
  input_put, coordinator_get, coordinator_send, finalize_shutdown, start_relay,
}

-- A thread between two parts: its loop is over, it is about to begin a round, it is past the test of
-- the loop (the coordinator alone), it has data, or an error of its has it in stop_relay().
pub data Thread : Type 0 where
  over : Thread
  fresh : Thread
  waits : Thread
  carries : Bytes → Thread
  halting : Halt → Thread

-- A pipeline, whether start_relay() is in its loop, the two threads, how far the other threads that
-- called stop_relay() are with it, the data that was read and the data that the client sent since
-- then, and the restarts that other threads requested.
pub record Relay : Type 0 where
  pub pipeline : Pipeline
  pub active : Bool
  pub reader : Thread
  pub coordinator : Thread
  pub others : List Halt
  pub got : List Bytes
  pub sent : List Bytes
  pub requests : ℕ

pub data Event : Type 0 where
  start : InputAnswer → ℕ → ℕ → Opening → Event
  read : Reading → Event
  put : Event
  test : Event
  get : Event
  send : ℕ → Sending → Bool → Event
  stop : Event
  restart : Event
  other_halts : ℕ → Event
  reader_halts : Event
  coordinator_halts : Event
  timeout : Event
  finish : Event

abbrev pub thread_of : Next → Thread
thread_of ends = over
thread_of halts = halting checks
thread_of loops = fresh
thread_of (holds bytes) = carries bytes

abbrev pub held_by : Thread → List Bytes
held_by over = []
held_by fresh = []
held_by waits = []
held_by (carries bytes) = bytes ∷ []
held_by (halting h) = []

abbrev pub with_next : Next → List Bytes → List Bytes
with_next ends got = got
with_next halts got = got
with_next loops got = got
with_next (holds bytes) got = got ++ bytes ∷ []

abbrev pub started : Relay → Pipeline × Begun → Relay
started r (p, was_running) = record r { pipeline = p }
started r (p, failed called) = record r { pipeline = p }
started r (p, begun) = record r {
  pipeline = p;
  active = true;
  reader = fresh;
  coordinator = fresh;
  got = [];
  sent = [];
}

abbrev pub read_with : Pipeline × Next → Relay → Relay
read_with (p, next) r = record r {
  pipeline = p;
  reader = thread_of next;
  got = with_next next r.got;
}

abbrev pub read_at : Thread → Reading → Relay → Relay
unfolding input_read
read_at over reading r = r
read_at waits reading r = r
read_at (halting h) reading r = r
read_at (carries bytes) reading r = r
read_at fresh reading r = read_with (input_read reading r.pipeline) r

abbrev pub put_with : Pipeline × Next → Relay → Relay
put_with (p, next) r = record r { pipeline = p; reader = thread_of next }

abbrev pub put_at : Thread → Relay → Relay
unfolding input_put
put_at over r = r
put_at fresh r = r
put_at waits r = r
put_at (halting h) r = r
put_at (carries bytes) r = put_with (input_put bytes r.pipeline) r

abbrev pub get_with : Pipeline × Next → Relay → Relay
get_with (p, next) r = record r { pipeline = p; coordinator = thread_of next }

-- The test of the coordinator's loop.
abbrev pub test_at : Thread → Relay → Relay
unfolding loop_goes_on
test_at over r = r
test_at waits r = r
test_at (carries bytes) r = r
test_at (halting h) r = r
test_at fresh r = record r { coordinator = if loop_goes_on r.pipeline then waits else over }

abbrev pub get_at : Thread → Relay → Relay
unfolding coordinator_get
get_at over r = r
get_at fresh r = r
get_at (carries bytes) r = r
get_at (halting h) r = r
get_at waits r = get_with (coordinator_get r.pipeline) r

abbrev pub send_with : Bytes → (Pipeline × Next) × Bool → Relay → Relay
send_with bytes ((p, next), ok) r = record r {
  pipeline = p;
  coordinator = thread_of next;
  sent = if ok then r.sent ++ bytes ∷ [] else r.sent;
}

abbrev pub send_at : Thread → ℕ → Sending → Bool → Relay → Relay
unfolding coordinator_send
send_at over now sending breaks r = r
send_at fresh now sending breaks r = r
send_at waits now sending breaks r = r
send_at (halting h) now sending breaks r = r
send_at (carries bytes) now sending breaks r =
    send_with bytes (coordinator_send now bytes sending breaks r.pipeline) r

-- After a part of stop_relay() in a thread, whose loop is over with the last.
abbrev pub after_halt : Option Halt → Thread
after_halt none = over
after_halt (some h) = halting h

abbrev pub reader_halt_at : Thread → Relay → Relay
unfolding stop_relay
reader_halt_at over r = r
reader_halt_at fresh r = r
reader_halt_at waits r = r
reader_halt_at (carries bytes) r = r
reader_halt_at (halting h) r =
    let (p, next) = stop_relay h r.pipeline in record r { pipeline = p; reader = after_halt next }

abbrev pub coordinator_halt_at : Thread → Relay → Relay
unfolding stop_relay
coordinator_halt_at over r = r
coordinator_halt_at fresh r = r
coordinator_halt_at waits r = r
coordinator_halt_at (carries bytes) r = r
coordinator_halt_at (halting h) r =
    let (p, next) = stop_relay h r.pipeline in
    record r { pipeline = p; coordinator = after_halt next }

abbrev pub and_halt : Option Halt → List Halt → List Halt
and_halt none others = others
and_halt (some h) others = h ∷ others

-- The next part of stop_relay() in the other thread of this number.
unfoldable pub halt_other : ℕ → List Halt → Pipeline → Pipeline × List Halt
unfolding stop_relay
halt_other n [] p = (p, [])
halt_other zero (h ∷ others) p = let (p', next) = stop_relay h p in (p', and_halt next others)
halt_other (suc n) (h ∷ others) p = let (p', others') = halt_other n others p in (p', h ∷ others')

-- start_relay() ends when the coordinator's loop is over and the input thread has been joined.
abbrev pub finish_at : Thread → Thread → Relay → Relay
unfolding finalize_shutdown
finish_at over over r = record r { pipeline = (finalize_shutdown r.pipeline).0; active = false }
finish_at over fresh r = r
finish_at over waits r = r
finish_at over (carries bytes) r = r
finish_at over (halting h) r = r
finish_at fresh coordinator r = r
finish_at waits coordinator r = r
finish_at (carries bytes) coordinator r = r
finish_at (halting h) coordinator r = r

unfoldable pub step : Relay → Event → Relay
unfolding read_at put_at test_at get_at send_at finish_at start_relay halt_other request_restart
    on_heartbeat_timeout
step r (start answer now key opening) =
    if r.active then r else started r (start_relay answer now key opening r.pipeline)
step r (read reading) = read_at r.reader reading r
step r put = put_at r.reader r
step r test = test_at r.coordinator r
step r get = get_at r.coordinator r
step r (send now sending breaks) = send_at r.coordinator now sending breaks r
step r stop = record r { others = checks ∷ r.others }
step r restart = record r {
  pipeline = request_restart r.pipeline;
  others = checks ∷ r.others;
  requests = r.requests + 1;
}
step r (other_halts n) =
    let (p, others') = halt_other n r.others r.pipeline in
    record r { pipeline = p; others = others' }
step r reader_halts = reader_halt_at r.reader r
step r coordinator_halts = coordinator_halt_at r.coordinator r
step r timeout = record r {
  pipeline = record r.pipeline { client = on_heartbeat_timeout r.pipeline.client };
}
step r finish = finish_at r.reader r.coordinator r

unfoldable pub run : Relay → List Event → Relay
unfolding step
run r [] = r
run r (event ∷ events) = run (step r event) events

-- The restarts, the errors and the runs are counted, and the queue is bounded.
pub record IsCounted (p : Pipeline) (requests : ℕ) : Type 0 where
  pub restarts :
      p.stats.restart_attempts
      ≡ p.stats.input_errors + p.stats.rtcm_errors + p.stats.coordination_errors + requests
  pub starts : p.stats.successful_starts ≤ p.stats.pipeline_starts
  pub bounded : IsBounded p.data_queue

-- Not after the end of the loop.
abbrev pub is_looping : Thread → Bool
is_looping over = false
is_looping fresh = true
is_looping waits = true
is_looping (carries bytes) = true
is_looping (halting h) = false

-- All that was read, in order, while the coordinator's loop goes on: sent, with the coordinator,
-- queued, with the input thread; and the one chunk, if any, that ended the input thread's loop.
pub record IsWhole (r : Relay) : Type 0 where
  pub lost : List Bytes
  pub order :
      r.got
      ≡ r.sent
        ++ (held_by r.coordinator
            ++ (present r.pipeline.data_queue.items ++ (held_by r.reader ++ lost)))
  pub none_lost : is_looping r.reader ≡ true → lost ≡ []
  pub one_lost : length lost ≤ 1

-- Outside start_relay().
pub record IsIdle (r : Relay) : Type 0 where
  pub empty : present r.pipeline.data_queue.items ≡ []
  pub halted : r.pipeline.running ≡ false
  pub reader_over : r.reader ≡ over
  pub coordinator_over : r.coordinator ≡ over

pub record IsRelayed (r : Relay) : Type 0 where
  pub counted : IsCounted r.pipeline r.requests
  pub prefix : (more : List Bytes) × (r.got ≡ r.sent ++ more)
  pub whole : is_looping r.coordinator ≡ true → IsWhole r
  pub idle : r.active ≡ false → IsIdle r
