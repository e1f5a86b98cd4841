-- ===== src/Client.antt =====
-- RTCMClient of src/sp_rtk_base_relay/core/rtcm_client.py: the connection to an RTCM server.
-- The network is not part of the client: what the calls to the socket meet is given to each step, a
-- socket is the number of its connection, and times are the numbers that time.time() returned. The
-- thread of the heartbeat monitor calls on_heartbeat_timeout between the other calls.
pub mod States
pub mod Heartbeat
pub mod Calls
use sp_rtk_base_relay.Prelude.{
  ℕ, ◌+◌, ◌*◌, ◌/◌, min, Bool, true, false, not, ◌||◌, Option, none, some, List, [], ◌∷◌, length,
  ltb, ◌==◌, ◌&&◌, is_some, if◌then◌else◌,
}
use sp_rtk_base_relay.Rtcm.{Bytes}
use States.{
  ConnectionState, disconnected, connecting, authenticating, connected, stopping, is_connecting,
  can_send_data, state_should_retry, is_disconnected, after_cleanup,
}
use Heartbeat.{
  HeartbeatMonitor, new_monitor, start_monitor, stop_monitor, update_heartbeat, heartbeat,
}

-- The settings that the client reads, as a valid configuration has them; `retry_multiplier` is a
-- fraction.
pub record ClientConfig : Type 0 where
  pub heartbeat_timeout : ℕ
  pub retry_initial_delay : ℕ
  pub retry_max_delay : ℕ
  pub retry_multiplier : ℕ × ℕ

pub record ConnectionStats : Type 0 where
  pub connection_attempts : ℕ
  pub successful_connections : ℕ
  pub authentication_failures : ℕ
  pub heartbeat_timeouts : ℕ
  pub bytes_sent : ℕ
  pub messages_sent : ℕ
  pub last_heartbeat_time : ℕ
  pub connected_since : Option ℕ
  pub stats_retry_delay : ℕ

abbrev pub no_connection_stats : ConnectionStats
no_connection_stats = record {
  connection_attempts = 0;
  successful_connections = 0;
  authentication_failures = 0;
  heartbeat_timeouts = 0;
  bytes_sent = 0;
  messages_sent = 0;
  last_heartbeat_time = 0;
  connected_since = none;
  stats_retry_delay = 0;
}

pub record RtcmClient : Type 0 where
  pub config : ClientConfig
  pub socket : Option ℕ
  pub state : ConnectionState
  pub stats : ConnectionStats
  pub heartbeat_monitor : HeartbeatMonitor
  pub current_retry_delay : ℕ

unfoldable pub new_client : ClientConfig → RtcmClient
new_client config = record {
  config = config;
  socket = none;
  state = disconnected;
  stats = no_connection_stats;
  heartbeat_monitor = new_monitor config.heartbeat_timeout;
  current_retry_delay = config.retry_initial_delay;
}

abbrev pub is_connected : RtcmClient → Bool
is_connected c = can_send_data c.state

unfoldable pub should_retry : RtcmClient → Bool
should_retry c = state_should_retry c.state

-- The property connection_statistics, which updates the statistics that it returns.
unfoldable pub connection_statistics : RtcmClient → RtcmClient
connection_statistics c =
    let last = c.heartbeat_monitor.last_heartbeat in
    record c {
      stats = record c.stats {
        stats_retry_delay = c.current_retry_delay;
        last_heartbeat_time = if ltb 0 last then last else c.stats.last_heartbeat_time;
      };
    }

abbrev pub cleanup_connection : RtcmClient → RtcmClient
cleanup_connection c = record c { socket = none; state = after_cleanup c.state }

abbrev pub reset_retry_delay : RtcmClient → RtcmClient
reset_retry_delay c = record c { current_retry_delay = c.config.retry_initial_delay }

-- int(delay * multiplier)
abbrev pub scaled : ℕ → ℕ × ℕ → ℕ
scaled delay (numerator, denominator) = delay * numerator / denominator

unfoldable pub update_retry_delay : RtcmClient → RtcmClient
update_retry_delay c =
    let new_delay : ℕ =
      min (scaled c.current_retry_delay c.config.retry_multiplier) c.config.retry_max_delay in
    record c {
      current_retry_delay = new_delay;
      stats = record c.stats { stats_retry_delay = new_delay };
    }

unfoldable pub on_connection_lost : RtcmClient → RtcmClient
unfolding update_retry_delay
on_connection_lost c =
    let stopped = record c { heartbeat_monitor = stop_monitor c.heartbeat_monitor } in
    let cleaned = update_retry_delay (cleanup_connection stopped) in
    record cleaned { state = disconnected; stats = record cleaned.stats { connected_since = none } }

unfoldable pub on_heartbeat_timeout : RtcmClient → RtcmClient
unfolding on_connection_lost
on_heartbeat_timeout c =
    on_connection_lost
      (record c { stats = record c.stats { heartbeat_timeouts = c.stats.heartbeat_timeouts + 1 } })

-- How INIT is answered: with the bytes of recv(4), or with an exception of a call.
pub data Answer : Type 0 where
  replied : Bytes → Answer
  broke_off : Answer

-- How the opening of a socket goes: socket() raises, connect() raises, or the connection stands.
pub data Opening : Type 0 where
  no_socket : Opening
  unreachable : Opening
  opened : Answer → Opening

abbrev pub same_bytes : Bytes → Bytes → Bool
same_bytes [] [] = true
same_bytes [] (b ∷ bytes) = false
same_bytes (a ∷ others) [] = false
same_bytes (a ∷ others) (b ∷ bytes) = (a == b) && same_bytes others bytes

unfoldable pub is_heartbeat : Answer → Bool
is_heartbeat (replied bytes) = same_bytes bytes heartbeat
is_heartbeat broke_off = false

unfoldable pub answered : ℕ → Answer → RtcmClient → RtcmClient × Bool
unfolding is_heartbeat
answered now answer c =
    if is_heartbeat answer
    then (record c { heartbeat_monitor = update_heartbeat now c.heartbeat_monitor }, true)
    else (
      record c {
        stats = record c.stats { authentication_failures = c.stats.authentication_failures + 1 };
      },
      false,
    )

unfoldable pub authenticate : ℕ → Answer → RtcmClient → RtcmClient × Bool
unfolding answered
authenticate now answer c = elim c.socket [
  | none ↦ (c, false)
  | some s ↦ answered now answer (record c { state = authenticating })
]

unfoldable pub after_authenticate : ℕ → ℕ → RtcmClient × Bool → RtcmClient × Bool
unfolding start_monitor
after_authenticate now key (c, false) = (cleanup_connection c, false)
after_authenticate now key (c, true) =
    let standing = reset_retry_delay (record c {
      state = connected;
      stats = record c.stats {
        successful_connections = c.stats.successful_connections + 1;
        connected_since = some now;
      };
    }) in
    (record standing { heartbeat_monitor = start_monitor key standing.heartbeat_monitor }, true)

-- What follows on the removal of an old socket, with a new one of number `key`.
unfoldable pub open_socket : ℕ → ℕ → Opening → RtcmClient → RtcmClient × Bool
unfolding authenticate after_authenticate
open_socket now key no_socket c = (cleanup_connection c, false)
open_socket now key unreachable c = (cleanup_connection (record c { socket = some key }), false)
open_socket now key (opened answer) c =
    after_authenticate now key (authenticate now answer (record c { socket = some key }))

unfoldable pub begin_connect : RtcmClient → RtcmClient
begin_connect c =
    let started : RtcmClient = record c {
      state = connecting;
      stats = record c.stats { connection_attempts = c.stats.connection_attempts + 1 };
    } in
    elim c.socket [ none ↦ started | some old ↦ cleanup_connection started ]

unfoldable pub connect : ℕ → ℕ → Opening → RtcmClient → RtcmClient × Bool
unfolding begin_connect open_socket
connect now key opening c =
    let attempt = open_socket now key opening (begin_connect c) in
    if is_connecting c.state then (c, false) else attempt

unfoldable pub disconnect : RtcmClient → RtcmClient
disconnect c =
    let stopped =
      cleanup_connection
        (record c { state = stopping; heartbeat_monitor = stop_monitor c.heartbeat_monitor }) in
    if is_disconnected c.state then c else record stopped {
      state = disconnected;
      stats = record stopped.stats { connected_since = none };
    }

-- How sendall() goes.
pub data Sending : Type 0 where
  went : Sending
  os_error : Sending
  other_error : Sending

unfoldable pub after_send : Bytes → Sending → RtcmClient → RtcmClient × Bool
unfolding on_connection_lost
after_send bytes went c = (
  record c {
    stats = record c.stats {
      bytes_sent = c.stats.bytes_sent + length bytes;
      messages_sent = c.stats.messages_sent + 1;
    };
  },
  true,
)
after_send bytes os_error c = (on_connection_lost c, false)
after_send bytes other_error c = (c, false)

unfoldable pub send_rtcm_data : Bytes → Sending → RtcmClient → RtcmClient × Bool
unfolding after_send
send_rtcm_data bytes sending c =
    let tried = after_send bytes sending c in
    if not (is_connected c) || not (is_some c.socket) then (c, false) else tried
