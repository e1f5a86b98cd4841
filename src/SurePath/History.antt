-- ===== src/SurePath/History.antt =====
-- The Sure-Path destination of src/sp_rtk_base_relay/core/destinations/surepath_destination.py over
-- time: its thread, the client's heartbeat thread, and other threads.
use sp_rtk_base_relay.Prelude.{
  ℕ, ◌+◌, ◌≤◌, ◌≡◌, String, Bool, false, Option, none, some, List, [], ◌∷◌, ltb, if◌then◌else◌,
}
use sp_rtk_base_relay.Rtcm.{Bytes}
use sp_rtk_base_relay.Client.{
  ClientConfig, Opening, no_socket, Sending, went, on_heartbeat_timeout, is_connected,
}
use sp_rtk_base_relay.Client.Calls.{IsLinked, IsWithin}
use sp_rtk_base_relay.Destination.{
  Destination, Remote, enqueue, take_item, Taken, item, stop_signal, begin_attempt, judge_attempt,
  send_chunk, add_dropped,
}
use sp_rtk_base_relay.Destination
use sp_rtk_base_relay.SurePath.{SurePath, surepath_remote, disconnect_client, scheduled}

-- How far the thread is with the chunk that it took: the connection is to be tested; connect() has
-- returned, or raised a text; the attempt has been judged; its time is set, or there was no attempt;
-- the chunk is to be sent.
pub data Phase : Type 0 where
  free : Phase
  holding : Bytes → Phase
  tried : Bytes → Option String → Phase
  judged : Bytes → Phase
  settled : Bytes → Phase
  ready : Bytes → Phase

-- The destination, its thread's phase, the time at which the last attempt was found to have failed, if
-- it was and the destination has not been disconnected since, how many attempts came sooner after such
-- a time than the initial delay, and how many connections were lost before the thread saw them.
pub record History : Type 0 where
  pub dest : Destination SurePath
  pub phase : Phase
  pub failed_at : Option ℕ
  pub early : ℕ
  pub unseen : ℕ

-- Each part of the thread's round is an event, with the times that it reads and what connect() or
-- sendall() meets; those of other threads come between.
pub data Event : Type 0 where
  offer : Bytes → Event
  take : Event
  test : ℕ → ℕ → ℕ → Opening → Event
  judge : ℕ → Event
  set_time : ℕ → Event
  test_again : Event
  send : ℕ → Sending → Event
  heartbeat_lost : Event
  signal_stop : Event
  finish_stop : Event
  restart : Event

abbrev pub is_early : ℕ → ℕ → Option ℕ → Bool
is_early delay now none = false
is_early delay now (some failed) = ltb now (failed + delay)

abbrev pub kept : Taken → Phase
kept (item bytes) = holding bytes
kept got = free

abbrev pub take_at : Phase → History → History
take_at free h = let (got, d) = take_item h.dest in record h { dest = d; phase = kept got }
take_at p h = h

-- What the tests and the sends use of the socket.
unfoldable pub at_rest : Remote SurePath
unfolding surepath_remote
at_rest = surepath_remote 0 0 no_socket went

-- connect() of an attempt, with what it raised.
unfoldable pub try_connect : ClientConfig → ℕ → ℕ → ℕ → Opening → Bytes → History → History
unfolding surepath_remote
try_connect config before after key opening bytes h =
    let (raised, d) = begin_attempt (surepath_remote after key opening went) h.dest in
    record h {
      dest = d;
      phase = tried bytes raised;
      early =
          if is_early config.retry_initial_delay before h.failed_at then h.early + 1 else h.early;
    }

-- The first test, and without a connection the attempt, if it is time for one.
unfoldable pub test_at : ClientConfig → Phase → ℕ → ℕ → ℕ → Opening → History → History
unfolding try_connect
test_at config (holding bytes) before after key opening h =
    if is_connected h.dest.remote.client
    then record h { phase = ready bytes }
    else if ltb before h.dest.remote.next_connect_time
    then record h { phase = settled bytes }
    else try_connect config before after key opening bytes h
test_at config p before after key opening h = h

abbrev pub count_unseen : Option String → History → ℕ
count_unseen (some e) h = h.unseen
count_unseen none h = if is_connected h.dest.remote.client then h.unseen else h.unseen + 1

unfoldable pub judge_at : Phase → ℕ → History → History
unfolding at_rest
judge_at (tried bytes raised) now h = record h {
  dest = judge_attempt at_rest now raised h.dest;
  phase = judged bytes;
  unseen = count_unseen raised h;
}
judge_at p now h = h

-- The test of SurePathDestination's own _attempt_connect.
unfoldable pub set_time_at : Phase → ℕ → History → History
set_time_at (judged bytes) now h = record h {
  dest = scheduled now h.dest;
  phase = settled bytes;
  failed_at = if is_connected h.dest.remote.client then none else some now;
}
set_time_at p now h = h

-- The second test of the loop.
unfoldable pub test_again_at : Phase → History → History
test_again_at (settled bytes) h =
    if is_connected h.dest.remote.client
    then record h { phase = ready bytes }
    else record h { dest = add_dropped h.dest; phase = free }
test_again_at p h = h

-- A send that fails disconnects.
unfoldable pub send_with : ℕ → Bytes → Sending → History → History
unfolding surepath_remote
send_with now bytes sending h =
    let d' = send_chunk (surepath_remote now 0 no_socket sending) now bytes h.dest in
    record h {
      dest = d';
      failed_at = if ltb h.dest.stats.errors d'.stats.errors then none else h.failed_at;
    }

unfoldable pub send_at : Phase → ℕ → Sending → History → History
unfolding send_with
send_at (ready bytes) now sending h = send_with now bytes sending (record h { phase = free })
send_at p now sending h = h

unfoldable pub lose_heartbeat : Destination SurePath → Destination SurePath
unfolding on_heartbeat_timeout
lose_heartbeat d = record d {
  remote = record d.remote { client = on_heartbeat_timeout d.remote.client };
}

-- What the thread has still to count of an attempt, and of one that connected.
abbrev pub attempt_pending : Phase → ℕ
attempt_pending (tried bytes raised) = 1
attempt_pending p = 0

abbrev pub success_pending : Phase → ℕ
success_pending (tried bytes none) = 1
success_pending p = 0

module _ (config : ClientConfig) where
  unfoldable pub step : History → Event → History
  unfolding test_at judge_at set_time_at test_again_at send_at lose_heartbeat disconnect_client
      enqueue
  step h (offer bytes) = record h { dest = (enqueue h.dest bytes).0 }
  step h take = take_at h.phase h
  step h (test before after key opening) = test_at config h.phase before after key opening h
  step h (judge now) = judge_at h.phase now h
  step h (set_time now) = set_time_at h.phase now h
  step h test_again = test_again_at h.phase h
  step h (send now sending) = send_at h.phase now sending h
  step h heartbeat_lost = record h { dest = lose_heartbeat h.dest }
  step h signal_stop = record h { dest = stop_signal h.dest }
  step h finish_stop = record h {
    dest = record h.dest { remote = disconnect_client h.dest.remote };
    failed_at = none;
  }
  step h restart = record h { dest = (Destination.start h.dest).0 }

  unfoldable pub run : History → List Event → History
  unfolding step
  run h [] = h
  run h (event ∷ events) = run (step h event) events

  -- The destination's statistics are the client's, but for what is still to be counted and the
  -- connections that were lost unseen; its attempts succeed or fail; and no attempt came sooner after a
  -- failure than the initial delay.
  pub record IsInStep (h : History) : Type 0 where
    pub linked : IsLinked h.dest.remote.client
    pub within : IsWithin config h.dest.remote.client
    pub messages : h.dest.stats.messages_sent ≡ h.dest.remote.client.stats.messages_sent
    pub bytes : h.dest.stats.bytes_sent ≡ h.dest.remote.client.stats.bytes_sent
    pub attempts : h.dest.stats.connection_attempts ≡ h.dest.remote.client.stats.connection_attempts
    pub successes :
        h.dest.stats.successful_connections + h.unseen + success_pending h.phase
        ≡ h.dest.remote.client.stats.successful_connections
    pub failures :
        h.dest.stats.connection_failures
          + h.dest.stats.successful_connections
          + attempt_pending h.phase
        ≡ h.dest.stats.connection_attempts
    pub waits :
        (t : ℕ)
        → h.failed_at ≡ some t
        → t + config.retry_initial_delay ≤ h.dest.remote.next_connect_time
    pub punctual : h.early ≡ 0
