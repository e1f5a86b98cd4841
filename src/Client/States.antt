-- ===== src/Client/States.antt =====
-- src/sp_rtk_base_relay/core/connection_states.py: the states of a connection to an RTCM server.
use sp_rtk_base_relay.Prelude.{Bool, true, false}

pub data ConnectionState : Type 0 where
  disconnected : ConnectionState
  connecting : ConnectionState
  authenticating : ConnectionState
  connected : ConnectionState
  reconnecting : ConnectionState
  error : ConnectionState
  stopping : ConnectionState

abbrev pub is_connecting : ConnectionState → Bool
is_connecting connecting = true
is_connecting authenticating = true
is_connecting _ = false

abbrev pub can_send_data : ConnectionState → Bool
can_send_data connected = true
can_send_data _ = false

abbrev pub state_should_retry : ConnectionState → Bool
state_should_retry disconnected = true
state_should_retry error = true
state_should_retry _ = false

-- state == DISCONNECTED
abbrev pub is_disconnected : ConnectionState → Bool
is_disconnected disconnected = true
is_disconnected _ = false

-- What _cleanup_connection() makes of the state.
abbrev pub after_cleanup : ConnectionState → ConnectionState
after_cleanup disconnected = disconnected
after_cleanup stopping = stopping
after_cleanup _ = error
