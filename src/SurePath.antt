-- ===== src/SurePath.antt =====
-- SurePathDestination of src/sp_rtk_base_relay/core/destinations/surepath_destination.py: a destination
-- that sends through an RTCMClient. What the client's calls to the socket meet is given to each part,
-- as for the client. Its own connection attempts wait for a time; the rest is BaseDestination's.
pub mod History
pub mod Attempts
pub mod Prepares
pub mod Sends
pub mod Runs
mod Tests
use sp_rtk_base_relay.Prelude.{
  ℕ, ◌+◌, String, Bool, true, false, Option, none, some, ltb, if◌then◌else◌,
}
use sp_rtk_base_relay.Rtcm.{Bytes}
use sp_rtk_base_relay.Filter.{FilterConfig, Result, ok, err}
use sp_rtk_base_relay.Client.{
  ClientConfig, RtcmClient, new_client, Opening, Sending, went, connect, disconnect, send_rtcm_data,
  is_connected,
}
use sp_rtk_base_relay.Destination.{Destination, Remote, init, default_queue_size, Taken, take_item}
use sp_rtk_base_relay.Destination
use sp_rtk_base_relay.Config.Destinations.{DestinationConfig, surepath, to_filter_config}
use sp_rtk_base_relay.Config.Servers.{to_rtcm_server_config}
use sp_rtk_base_relay.Config.Checks.{client_config}
use sp_rtk_base_relay.Factory.{Outcome, done, raises, configuration_error, other_error}

-- The part of the object that is not BaseDestination's.
pub record SurePath : Type 0 where
  pub client : RtcmClient
  pub next_connect_time : ℕ

unfoldable pub connect_client : ℕ → ℕ → Opening → SurePath → Option String × SurePath
unfolding connect
connect_client now key opening s =
    let (client, success) = connect now key opening s.client in
    (if success then none else some "RTCMClient.connect() failed", record s { client = client })

unfoldable pub disconnect_client : SurePath → SurePath
unfolding disconnect
disconnect_client s = record s { client = disconnect s.client; next_connect_time = 0 }

unfoldable pub send_data : Sending → Bytes → SurePath → Option String × SurePath
unfolding send_rtcm_data
send_data sending bytes s =
    let (client, sent) = send_rtcm_data bytes sending s.client in
    (if sent then none else some "send_rtcm_data returned False", record s { client = client })

-- The methods that BaseDestination calls.
unfoldable pub surepath_remote : ℕ → ℕ → Opening → Sending → Remote SurePath
unfolding connect_client disconnect_client send_data
surepath_remote now key opening sending = record {
  connect = connect_client now key opening;
  disconnect = disconnect_client;
  send_data = send_data sending;
  is_connected = λ (s : SurePath). is_connected s.client;
}

-- After an attempt: the next one waits for the client's delay, or for nothing.
abbrev pub schedule : ℕ → SurePath → SurePath
schedule now s = record s {
  next_connect_time = if is_connected s.client then 0 else now + s.client.current_retry_delay;
}

abbrev pub scheduled : ℕ → Destination SurePath → Destination SurePath
scheduled now d = record d { remote = schedule now d.remote }

-- _attempt_connect(), with the times before and after the attempt. It sends nothing.
unfoldable pub attempt_connect : ℕ → ℕ → ℕ → Opening → Destination SurePath → Destination SurePath
unfolding surepath_remote
attempt_connect before after key opening d =
    let tried = Destination.attempt_connect (surepath_remote after key opening went) after d in
    if ltb before d.remote.next_connect_time then d else scheduled after tried

unfoldable pub ensure_connected : ℕ → ℕ → ℕ → Opening → Destination SurePath → Destination SurePath
unfolding attempt_connect
ensure_connected before after key opening d =
    if is_connected d.remote.client then d else attempt_connect before after key opening d

-- The destination of a configuration. The ValueError of the filter is an error of another kind.
abbrev pub built : String → Result FilterConfig → RtcmClient → Outcome (Destination SurePath)
built name (ok filter) client = done (
    init name "surepath" filter default_queue_size
      (record { client = client; next_connect_time = 0 }))
built name (err e) client = raises (other_error "message IDs must be from 0 to 4095")

unfoldable pub build_surepath_destination : DestinationConfig → Outcome (Destination SurePath)
unfolding to_filter_config new_client
build_surepath_destination c = elim c.config [
  | surepath settings ↦
      built c.name (to_filter_config c.filter)
        (new_client (client_config (to_rtcm_server_config settings)))
  | _ ↦ raises (configuration_error "Expected SurePathDestinationConfig")
]
