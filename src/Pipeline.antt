-- ===== src/Pipeline.antt =====
-- DataPipelineCoordinator of src/sp_rtk_base_relay/core/data_pipeline.py: the older pipeline, from one
-- input to one RTCM client. The input is whether it is connected, and each read is given; the client
-- is an RtcmClient, whose calls to the socket are given too. Both threads, and stop_relay(), which any
-- thread may be in, are cut into the parts between which the other threads come; start_relay() up to
-- its loop and _finalize_shutdown() are one part each. The metrics collector is what it has counted.
-- An input thread that outlives join(timeout=2.0) is not modelled.
pub mod Relay
use sp_rtk_base_relay.Prelude.{
  ℕ, ◌+◌, String, Bool, true, false, not, ◌&&◌, ◌||◌, Option, none, some, List, [], ◌∷◌, ◌++◌,
  length, if◌then◌else◌,
}
use sp_rtk_base_relay.Rtcm.{Bytes, extract_all_message_ids}
use sp_rtk_base_relay.Framing.Pipeline.{pipeline_frames}
use sp_rtk_base_relay.Queue.{Queue, new, put_nowait, get_nowait}
use sp_rtk_base_relay.Client.{
  RtcmClient, Opening, Sending, connect, disconnect, is_connected, send_rtcm_data,
}

pub record PipelineStats : Type 0 where
  pub pipeline_starts : ℕ
  pub successful_starts : ℕ
  pub pipeline_stops : ℕ
  pub restart_attempts : ℕ
  pub input_errors : ℕ
  pub rtcm_errors : ℕ
  pub coordination_errors : ℕ
  pub bytes_processed : ℕ
  pub messages_processed : ℕ
  pub last_data_time : ℕ
  pub uptime_start : Option ℕ

abbrev pub no_pipeline_stats : PipelineStats
no_pipeline_stats = record {
  pipeline_starts = 0;
  successful_starts = 0;
  pipeline_stops = 0;
  restart_attempts = 0;
  input_errors = 0;
  rtcm_errors = 0;
  coordination_errors = 0;
  bytes_processed = 0;
  messages_processed = 0;
  last_data_time = 0;
  uptime_start = none;
}

-- What the metrics collector has counted, if there is one.
pub record Metrics : Type 0 where
  pub collects : Bool
  pub message_ids : List ℕ
  pub decode_failures : ℕ

pub record Pipeline : Type 0 where
  pub client : RtcmClient
  pub input_connected : Bool
  pub data_queue : Queue (Option Bytes)
  pub running : Bool
  pub stop_event : Bool
  pub restart_requested : Bool
  pub stats : PipelineStats
  pub frame_buffer : Bytes
  pub metrics : Metrics

abbrev pub new_pipeline : RtcmClient → Bool → Pipeline
new_pipeline client collects = record {
  client = client;
  input_connected = false;
  data_queue = new 10;
  running = false;
  stop_event = false;
  restart_requested = false;
  stats = no_pipeline_stats;
  frame_buffer = [];
  metrics = record { collects = collects; message_ids = []; decode_failures = 0 };
}

unfoldable pub is_healthy : Pipeline → Bool
is_healthy p = p.input_connected && is_connected p.client && p.running

-- The wake-up of the coordinator, which a full queue does without.
abbrev pub put_stop : Option (Queue (Option Bytes)) → Queue (Option Bytes) → Queue (Option Bytes)
put_stop none q = q
put_stop (some q') q = q'

-- The parts of stop_relay(), in their order: the test of `running`, the two signals, the item that
-- wakes the coordinator, and the count.
pub data Halt : Type 0 where
  checks : Halt
  lowers : Halt
  signals : Halt
  wakes : Halt
  counts : Halt

-- A part of stop_relay(), and the next one. Nothing keeps two threads from being in it at once. The
-- put that waits a second for room finds the queue as it is when it ends.
unfoldable pub stop_relay : Halt → Pipeline → Pipeline × Option Halt
unfolding put_nowait
stop_relay checks p = (p, if p.running then some lowers else none)
stop_relay lowers p = (record p { running = false }, some signals)
stop_relay signals p = (record p { stop_event = true }, some wakes)
stop_relay wakes p =
    (record p { data_queue = put_stop (put_nowait p.data_queue none) p.data_queue }, some counts)
stop_relay counts p =
    (record p { stats = record p.stats { pipeline_stops = p.stats.pipeline_stops + 1 } }, none)

-- This and the error handlers, up to the call of stop_relay().
unfoldable pub request_restart : Pipeline → Pipeline
request_restart p = record p {
  stats = record p.stats { restart_attempts = p.stats.restart_attempts + 1 };
  restart_requested = true;
}

unfoldable pub handle_input_error : Pipeline → Pipeline
unfolding request_restart
handle_input_error p =
    request_restart
      (record p { stats = record p.stats { input_errors = p.stats.input_errors + 1 } })

unfoldable pub handle_rtcm_error : Pipeline → Pipeline
unfolding request_restart
handle_rtcm_error p =
    request_restart (record p { stats = record p.stats { rtcm_errors = p.stats.rtcm_errors + 1 } })

unfoldable pub handle_coordination_error : Pipeline → Pipeline
unfolding request_restart
handle_coordination_error p =
    request_restart (record p {
      stats = record p.stats { coordination_errors = p.stats.coordination_errors + 1 };
    })

-- Whether both connections are healthy; if one is not, stop_relay() is next.
unfoldable pub check_connections_health : Pipeline → Pipeline × Bool
unfolding handle_input_error handle_rtcm_error
check_connections_health p =
    if not p.input_connected
    then (handle_input_error p, false)
    else if not (is_connected p.client)
    then (handle_rtcm_error p, false)
    else (p, true)

-- What a thread does next: its loop is over, or it is after a call of stop_relay(), it begins another
-- round, or it goes on with bytes.
pub data Next : Type 0 where
  ends : Next
  halts : Next
  loops : Next
  holds : Bytes → Next

-- What read_data() does, with whether the input is still connected afterwards.
pub data Reading : Type 0 where
  reads : Bytes → Reading
  reads_nothing : Bool → Reading
  read_raises : Bool → Reading

-- The test of both loops.
unfoldable pub loop_goes_on : Pipeline → Bool
loop_goes_on p = p.running && not p.stop_event

abbrev pub after_read : Reading → Pipeline → Pipeline × Next
unfolding handle_input_error
after_read (reads bytes) p = (p, holds bytes)
after_read (reads_nothing still) p = (record p { input_connected = still }, loops)
after_read (read_raises still) p =
    (handle_input_error (record p { input_connected = still }), halts)

-- The input thread, up to the data that it has read.
unfoldable pub input_read : Reading → Pipeline → Pipeline × Next
unfolding handle_input_error after_read loop_goes_on
input_read reading p =
    if not (loop_goes_on p)
    then (p, ends)
    else if not p.input_connected
    then (handle_input_error p, halts)
    else after_read reading p

-- The input thread, with the data that it has read.
unfoldable pub input_put : Bytes → Pipeline → Pipeline × Next
unfolding handle_input_error put_nowait
input_put bytes p = elim (put_nowait p.data_queue (some bytes)) [
  | none ↦ (handle_input_error p, halts)
  | some q ↦ (record p { data_queue = q }, loops)
]

abbrev pub got_item : Bool → Option Bytes → Next
got_item running none = ends
got_item running (some bytes) = if running then holds bytes else ends

-- The coordinator, past the test of its loop, up to the data that it got.
unfoldable pub coordinator_get : Pipeline → Pipeline × Next
unfolding check_connections_health get_nowait
coordinator_get p =
    let (checked, healthy) = check_connections_health p in
    elim (get_nowait p.data_queue) [
      | none ↦ (checked, if healthy then loops else halts)
      | some (item, q) ↦ (record p { data_queue = q }, got_item p.running item)
    ]

unfoldable pub count_frames : List Bytes → Metrics → Metrics
count_frames [] m = m
count_frames (frame ∷ frames) m = elim (extract_all_message_ids frame) [
  | [] ↦ count_frames frames (record m { decode_failures = m.decode_failures + 1 })
  | id ∷ ids ↦ count_frames frames (record m { message_ids = m.message_ids ++ id ∷ ids })
]

unfoldable pub collect : Bytes → Pipeline → Pipeline
unfolding count_frames pipeline_frames
collect bytes p =
    let (frames, left) = pipeline_frames (p.frame_buffer ++ bytes) in
    if p.metrics.collects
    then record p { frame_buffer = left; metrics = count_frames frames p.metrics }
    else p

unfoldable pub count_processed : ℕ → Bytes → Pipeline → Pipeline
count_processed now bytes p = record p {
  stats = record p.stats {
    bytes_processed = p.stats.bytes_processed + length bytes;
    messages_processed = p.stats.messages_processed + 1;
    last_data_time = now;
  };
}

-- After send_rtcm_data() returned: `breaks` is whether the first call of the metrics collector raises.
unfoldable pub after_send : ℕ → Bytes → Bool → Bool → Pipeline → Pipeline × Next
unfolding collect count_processed handle_rtcm_error handle_coordination_error
after_send now bytes breaks sent p =
    if not sent
    then (handle_rtcm_error p, halts)
    else if breaks && p.metrics.collects
    then (handle_coordination_error p, halts)
    else (count_processed now bytes (collect bytes p), loops)

-- The coordinator, with the data that it got; true if the client sent it.
unfoldable pub coordinator_send : ℕ → Bytes → Sending → Bool → Pipeline → (Pipeline × Next) × Bool
unfolding after_send handle_rtcm_error
coordinator_send now bytes sending breaks p =
    let (client, sent) = send_rtcm_data bytes sending p.client in
    if not (is_connected p.client)
    then ((handle_rtcm_error p, halts), false)
    else (after_send now bytes breaks sent (record p { client = client }), sent)

unfoldable pub cleanup_connections : Pipeline → Pipeline
unfolding disconnect
cleanup_connections p = record p { client = disconnect p.client; input_connected = false }

-- With whether the restart callback is called. The queue is emptied by get_nowait().
unfoldable pub finalize_shutdown : Pipeline → Pipeline × Bool
unfolding cleanup_connections
finalize_shutdown p =
    let cleaned = cleanup_connections p in
    (
      record cleaned {
        data_queue = record p.data_queue { items = [] };
        frame_buffer = [];
        stats = record p.stats { uptime_start = none };
        running = false;
      },
      p.restart_requested,
    )

-- How connect() of the input source goes.
pub data InputAnswer : Type 0 where
  connects : InputAnswer
  refuses : InputAnswer
  raises : InputAnswer

-- What start_relay() does before its loop.
pub data Begun : Type 0 where
  was_running : Begun
  failed : Bool → Begun
  begun : Begun

abbrev pub start_failed : Pipeline → Pipeline × Begun
unfolding finalize_shutdown cleanup_connections
start_failed p = let (p', called) = finalize_shutdown (cleanup_connections p) in (p', failed called)

abbrev pub start_connected : ℕ → RtcmClient × Bool → Pipeline → Pipeline × Begun
unfolding start_failed
start_connected now (client, false) p =
    start_failed (record p { client = client; input_connected = false })
start_connected now (client, true) p = (
  record p {
    client = client;
    running = true;
    stop_event = false;
    restart_requested = false;
    frame_buffer = [];
    stats = record p.stats {
      successful_starts = p.stats.successful_starts + 1;
      uptime_start = some now;
    };
  },
  begun,
)

abbrev pub start_input : InputAnswer → ℕ → ℕ → Opening → Pipeline → Pipeline × Begun
unfolding start_failed start_connected
start_input connects now key opening p =
    start_connected now (connect now key opening p.client) (record p { input_connected = true })
start_input refuses now key opening p = start_failed (record p { input_connected = false })
start_input raises now key opening p = start_failed (record p { input_connected = false })

unfoldable pub start_relay : InputAnswer → ℕ → ℕ → Opening → Pipeline → Pipeline × Begun
unfolding start_input
start_relay answer now key opening p =
    let attempt =
      start_input answer now key opening
        (record p { stats = record p.stats { pipeline_starts = p.stats.pipeline_starts + 1 } }) in
    if p.running then (p, was_running) else attempt
