-- ===== src/Destination.antt =====
-- src/sp_rtk_base_relay/core/destinations/base_destination.py: a destination with its queue, its
-- statistics and the loop of its thread.
-- What a subclass implements (_connect, _disconnect, _send_data, _is_connected) is the interface
-- `Remote`, over a state of its own. Times are the numbers that time.time() returned, given to each
-- step. `str(e)` of an exception is a text. An item `none` of the queue is the poison pill.
-- The loop is cut where other threads may run: take_item, the test of the connection, begin_attempt,
-- judge_attempt, the second test, send_chunk; run_round is those of one round with nothing between.
-- stop() is cut into first_pill, drop_first, last_pill and, after its join, stop_finish.
pub mod Loop
pub mod History
pub mod Restart
pub mod Identity
use sp_rtk_base_relay.Prelude.{
  ℕ, zero, suc, ◌+◌, String, Bool, true, false, Option, none, some, List, [], ◌∷◌, length,
  if◌then◌else◌,
}
use sp_rtk_base_relay.Rtcm.{Bytes}
use sp_rtk_base_relay.Filter.{FilterConfig}
use sp_rtk_base_relay.Queue.{Queue, new, put_nowait, get_nowait, qsize}

pub record Remote (R : Type 0) : Type 0 where
  pub connect : R → Option String × R
  pub disconnect : R → R
  pub send_data : Bytes → R → Option String × R
  pub is_connected : R → Bool

pub record DestinationStats : Type 0 where
  pub bytes_sent : ℕ
  pub messages_sent : ℕ
  pub messages_dropped : ℕ
  pub messages_filtered : ℕ
  pub connection_attempts : ℕ
  pub successful_connections : ℕ
  pub connection_failures : ℕ
  pub errors : ℕ
  pub last_send_time : ℕ
  pub connected_since : Option ℕ
  pub queue_depth : ℕ
  pub last_error : Option String

abbrev pub no_stats : DestinationStats
no_stats = record {
  bytes_sent = 0;
  messages_sent = 0;
  messages_dropped = 0;
  messages_filtered = 0;
  connection_attempts = 0;
  successful_connections = 0;
  connection_failures = 0;
  errors = 0;
  last_send_time = 0;
  connected_since = none;
  queue_depth = 0;
  last_error = none;
}

abbrev pub Item : Type 0
Item = Option Bytes

-- `remote` is the subclass's part of the object.
pub record Destination (R : Type 0) : Type 0 where
  pub name : String
  pub destination_type : String
  pub enabled : Bool
  pub stats : DestinationStats
  pub filter : FilterConfig
  pub queue : Queue Item
  pub running : Bool
  pub remote : R

abbrev pub default_queue_size : ℕ
default_queue_size = 100

unfoldable pub init : {R : Type 0} → String → String → FilterConfig → ℕ → R → Destination R
unfolding new
init name destination_type filter queue_size remote = record {
  name = name;
  destination_type = destination_type;
  enabled = true;
  stats = no_stats;
  filter = filter;
  queue = new queue_size;
  running = false;
  remote = remote;
}

abbrev pub add_dropped : {R : Type 0} → Destination R → Destination R
add_dropped d = record d {
  stats = record d.stats { messages_dropped = d.stats.messages_dropped + 1 };
}

unfoldable pub enqueue : {R : Type 0} → Destination R → Bytes → Destination R × Bool
unfolding put_nowait
enqueue d bytes = elim (put_nowait d.queue (some bytes)) [
  | some queue' ↦ (record d { queue = queue' }, true)
  | none ↦ (add_dropped d, false)
]

-- `while True: get_nowait(); cleared += 1`, until queue.Empty; the fuel is the queue's length.
pub clear_loop : ℕ → ℕ → Queue Item → ℕ × Queue Item
clear_loop zero cleared q = (cleared, q)
clear_loop (suc fuel) cleared q = elim (get_nowait q) [
  | none ↦ (cleared, q)
  | some (item, q') ↦ clear_loop fuel (cleared + 1) q'
]

pub clear_queue : {R : Type 0} → Destination R → Destination R × ℕ
clear_queue d =
    let (cleared, q) = clear_loop (qsize d.queue + 1) 0 d.queue in (record d { queue = q }, cleared)

pub get_stats : {R : Type 0} → Destination R → DestinationStats × Destination R
get_stats d =
    let stats' : DestinationStats = record d.stats { queue_depth = qsize d.queue } in
    (stats', record d { stats = stats' })

-- start() but for the launch of the thread; true if a thread is launched.
pub start : {R : Type 0} → Destination R → Destination R × Bool
start d = if d.running then (d, false) else (record d { running = true }, true)

-- The parts of stop() up to its join, between which other threads may come. The first puts the poison
-- pill; true if it found the queue full.
pub first_pill : {R : Type 0} → Destination R → Destination R × Bool
unfolding put_nowait
first_pill {R} d =
    let signalled = elim (put_nowait d.queue none) as (λ x. Destination R × Bool) [
      | some q ↦ (record d { running = false; queue = q }, false)
      | none ↦ (record d { running = false }, true)
    ] in
    if d.running then signalled else (d, false)

-- Then the oldest item is taken out; false if there was none any more.
pub drop_first : {R : Type 0} → Destination R → Destination R × Bool
unfolding get_nowait
drop_first d = elim (get_nowait d.queue) [
  | none ↦ (d, false)
  | some (first, q) ↦ (record d { queue = q }, true)
]

-- And the pill is put again; without a result, queue.Full is raised out of stop().
pub last_pill : {R : Type 0} → Destination R → Option (Destination R)
unfolding put_nowait
last_pill d = elim (put_nowait d.queue none) [
  | none ↦ none
  | some q ↦ some (record d { queue = q })
]

abbrev or_full : {R : Type 0} → Destination R → Option (Destination R) → Destination R
or_full d none = d
or_full d (some d') = d'

-- These parts with nothing between them.
pub stop_signal : {R : Type 0} → Destination R → Destination R
unfolding first_pill drop_first last_pill
stop_signal d =
    let (signalled, full) = first_pill d in
    let (emptied, room) = drop_first signalled in
    if full then if room then or_full emptied (last_pill emptied) else emptied else signalled

-- What `self._queue.get` gave the loop, if the loop's test let it ask.
pub data Taken : Type 0 where
  not_running : Taken
  timed_out : Taken
  pill : Taken
  item : Bytes → Taken

taken : Item → Taken
taken none = pill
taken (some bytes) = item bytes

pub take_item : {R : Type 0} → Destination R → Taken × Destination R
unfolding taken get_nowait
take_item d =
    if d.running
    then elim (get_nowait d.queue) [
      | none ↦ (timed_out, d)
      | some (x, q) ↦ (taken x, record d { queue = q })
    ]
    else (not_running, d)

module _ {R : Type 0} (ops : Remote R) where
  pub connect_succeeded : ℕ → Destination R → Destination R
  connect_succeeded now d =
      let stats' : DestinationStats = record d.stats {
        successful_connections = d.stats.successful_connections + 1;
        connected_since = some now;
        last_error = none;
      } in
      (clear_queue (record d { stats = stats' })).0

  -- The two parts of _attempt_connect, between which other threads may come: _connect(), with what it
  -- raised, and what is made of it.
  pub begin_attempt : Destination R → Option String × Destination R
  begin_attempt d =
      let (raised, remote') = ops.connect d.remote in
      let tried : DestinationStats = record d.stats {
        connection_attempts = d.stats.connection_attempts + 1;
      } in
      (raised, record d { stats = tried; remote = remote' })

  pub judge_attempt : ℕ → Option String → Destination R → Destination R
  judge_attempt now raised d =
      let failed : DestinationStats = record d.stats {
        connection_failures = d.stats.connection_failures + 1;
      } in
      elim raised [
        | none ↦
            if ops.is_connected d.remote
            then connect_succeeded now d
            else record d { stats = failed }
        | some e ↦ record d {
          stats = record failed { errors = failed.errors + 1; last_error = some e };
        }
      ]

  pub attempt_connect : ℕ → Destination R → Destination R
  attempt_connect now d = let (raised, tried) = begin_attempt d in judge_attempt now raised tried

  -- `if not self._is_connected(): self._attempt_connect()`
  pub ensure_connected : ℕ → Destination R → Destination R
  ensure_connected now d = if ops.is_connected d.remote then d else attempt_connect now d

  -- `try: self._send_data(data)`, which nothing tests the connection for.
  pub send_chunk : ℕ → Bytes → Destination R → Destination R
  send_chunk now bytes d =
      let (raised, remote') = ops.send_data bytes d.remote in
      elim raised [
        | none ↦ record d {
          stats = record d.stats {
            bytes_sent = d.stats.bytes_sent + length bytes;
            messages_sent = d.stats.messages_sent + 1;
            last_send_time = now;
          };
          remote = remote';
        }
        | some e ↦ record d {
          stats = record d.stats { errors = d.stats.errors + 1; last_error = some e };
          remote = ops.disconnect remote';
        }
      ]

  -- The second `if not self._is_connected():`, after an attempt, and the send, as one part.
  pub transmit : ℕ → Bytes → Destination R → Destination R
  transmit now bytes d = if ops.is_connected d.remote then send_chunk now bytes d else add_dropped d

  after_take : ℕ → Taken → Destination R → Destination R × Bool
  after_take now not_running d = (d, false)
  after_take now timed_out d = (d, true)
  after_take now pill d = (d, false)
  after_take now (item bytes) d = (transmit now bytes (ensure_connected now d), true)

  -- One round of `_run_loop`; true if the loop goes on.
  pub run_round : ℕ → Destination R → Destination R × Bool
  unfolding after_take
  run_round now d = let (got, d') = take_item d in after_take now got d'

  -- `_run_loop`: rounds at these times, until the loop ends or the times are over.
  pub run_loop : List ℕ → Destination R → Destination R
  run_loop [] d = d
  run_loop (now ∷ times) d =
      let (d', goes_on) = run_round now d in
      let later = run_loop times d' in if goes_on then later else d'

  pub stop_finish : Destination R → Destination R
  stop_finish d = record d { remote = ops.disconnect d.remote }

  -- stop() with what the thread does until it ends or five seconds have passed.
  pub stop : (Destination R → Destination R) → Destination R → Destination R
  stop joined d = if d.running then stop_finish (joined (stop_signal d)) else d
