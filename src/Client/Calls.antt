-- ===== src/Client/Calls.antt =====
-- An RTCMClient through any calls.
mod Tests
pub mod Connects
pub mod Keeps
pub mod Sound
pub mod Backoff
use sp_rtk_base_relay.Prelude.{
  is_some, ℕ, zero, suc, ◌+◌, ◌*◌, ◌/◌, ◌≤◌, ◌<◌, ◌≡◌, refl, ◌∙◌, sym, ap, subst, ◌⊎◌, inl, inr,
  Bool, true, false, not, Option, none, some, List, [], ◌∷◌, ◌++◌, length, length-append, arith,
  Bool-cases, min,
}
use native.Mathlib.Nat.{le-div_iff_mul-le, mul-le-mul_left}
use sp_rtk_base_relay.Rtcm.{Bytes}
use sp_rtk_base_relay.Client.{
  ClientConfig, RtcmClient, Opening, Sending, connect, disconnect, send_rtcm_data,
  on_heartbeat_timeout, is_connected,
}
use sp_rtk_base_relay.Client.States.{
  ConnectionState, disconnected, connecting, authenticating, connected, reconnecting, error,
  stopping, is_disconnected,
}

pub data Call : Type 0 where
  connect_call : ℕ → ℕ → Opening → Call
  disconnect_call : Call
  send_call : Bytes → Sending → Call
  timeout_call : Call

-- A client with what its callers know: the connects that they called, those that gave True, the
-- bytes of the sends that gave True and their number, and the timeouts that the monitor reported.
pub record Session : Type 0 where
  pub client : RtcmClient
  pub connects : ℕ
  pub successes : ℕ
  pub sent : Bytes
  pub sends : ℕ
  pub timeouts : ℕ

abbrev count_true : Bool → ℕ → ℕ
count_true true n = n + 1
count_true false n = n

abbrev add_sent : Bool → Bytes → Bytes → Bytes
add_sent true bytes sent = sent ++ bytes
add_sent false bytes sent = sent

pub step : Session → Call → Session
step s (connect_call now key opening) =
    let (client, ok) = connect now key opening s.client in
    record s { client = client; connects = s.connects + 1; successes = count_true ok s.successes }
step s disconnect_call = record s { client = disconnect s.client }
step s (send_call bytes sending) =
    let (client, ok) = send_rtcm_data bytes sending s.client in
    record s { client = client; sent = add_sent ok bytes s.sent; sends = count_true ok s.sends }
step s timeout_call = record s { client = on_heartbeat_timeout s.client; timeouts = s.timeouts + 1 }

pub run : Session → List Call → Session
run s [] = s
run s (call ∷ calls) = run (step s call) calls

-- A destination connects only while it is not connected.
abbrev pub IsFree : Session → Call → Type 0
IsFree s (connect_call now key opening) = is_connected s.client ≡ false
IsFree s _ = Unit

pub IsOrderly : Session → List Call → Type 0
IsOrderly s [] = Unit
IsOrderly s (call ∷ calls) = IsFree s call × IsOrderly (step s call) calls

-- The states between two calls.
unfoldable pub IsSettled : ConnectionState → Type 0
IsSettled disconnected = Unit
IsSettled connected = Unit
IsSettled error = Unit
IsSettled connecting = ⊥
IsSettled authenticating = ⊥
IsSettled reconnecting = ⊥
IsSettled stopping = ⊥

-- Between two calls: the connection has a socket, its heartbeat monitor and a time exactly while
-- the state says that it is connected, and the monitor watches this socket.
pub record IsLinked (c : RtcmClient) : Type 0 where
  pub settled : IsSettled c.state
  pub has_socket : is_some c.socket ≡ is_connected c
  pub monitored : c.heartbeat_monitor.running ≡ is_connected c
  pub same_socket : c.heartbeat_monitor.socket ≡ c.socket
  pub since : is_some c.stats.connected_since ≡ is_connected c

-- What a valid configuration has.
pub record IsConfig (config : ClientConfig) : Type 0 where
  pub ordered : config.retry_initial_delay ≤ config.retry_max_delay
  pub fraction : 0 < config.retry_multiplier.1
  pub growing : config.retry_multiplier.1 ≤ config.retry_multiplier.0

-- The retry delay stays between its bounds.
pub record IsWithin (config : ClientConfig) (c : RtcmClient) : Type 0 where
  pub same_config : c.config ≡ config
  pub at_least : config.retry_initial_delay ≤ c.current_retry_delay
  pub at_most : c.current_retry_delay ≤ config.retry_max_delay

-- The statistics are what the callers count.
pub record IsCounted (s : Session) : Type 0 where
  pub attempts : s.client.stats.connection_attempts ≡ s.connects
  pub successful : s.client.stats.successful_connections ≡ s.successes
  pub failures : s.successes + s.client.stats.authentication_failures ≤ s.connects
  pub bytes : s.client.stats.bytes_sent ≡ length s.sent
  pub messages : s.client.stats.messages_sent ≡ s.sends
  pub missed : s.client.stats.heartbeat_timeouts ≡ s.timeouts

pub record IsSound (config : ClientConfig) (s : Session) : Type 0 where
  pub linked : IsLinked s.client
  pub within : IsWithin config s.client
  pub counted : IsCounted s
