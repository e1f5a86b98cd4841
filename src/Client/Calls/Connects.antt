-- ===== src/Client/Calls/Connects.antt =====
-- connect() of a client that is not connected.
use sp_rtk_base_relay.Prelude.{
  is_some, ℕ, ◌+◌, ◌≡◌, refl, ◌∙◌, ◌⊎◌, inl, inr, true, false, Option, none, some, Bool-cases,
}
use native.Mathlib.Omega.{arith}
use sp_rtk_base_relay.Client.{
  RtcmClient, Opening, no_socket, unreachable, opened, is_heartbeat, connect, is_connected,
  open_socket, begin_connect,
}
use sp_rtk_base_relay.Client.States.{
  ConnectionState, disconnected, connecting, authenticating, connected, reconnecting, error,
  stopping, is_connecting,
}
use sp_rtk_base_relay.Client.Calls.{IsSettled, IsLinked}

-- The client after an attempt that found no connection, or no authentication.
abbrev pub failed_client : ℕ → RtcmClient → RtcmClient
failed_client failures c = record c {
  socket = none;
  state = error;
  stats = record c.stats {
    connection_attempts = c.stats.connection_attempts + 1;
    authentication_failures = failures;
  };
}

abbrev pub connected_client : ℕ → ℕ → RtcmClient → RtcmClient
connected_client now key c = record c {
  socket = some key;
  state = connected;
  stats = record c.stats {
    connection_attempts = c.stats.connection_attempts + 1;
    successful_connections = c.stats.successful_connections + 1;
    connected_since = some now;
  };
  heartbeat_monitor = record c.heartbeat_monitor {
    last_heartbeat = now;
    running = true;
    socket = some key;
  };
  current_retry_delay = c.config.retry_initial_delay;
}

unconnected :
    (state : ConnectionState) (socket : Option ℕ) → IsSettled state → (is_connecting state ≡ false)
unfolding IsSettled
unconnected disconnected socket settled = refl
unconnected connected socket settled = refl
unconnected error socket settled = refl
unconnected connecting socket settled = absurd settled
unconnected authenticating socket settled = absurd settled
unconnected reconnecting socket settled = absurd settled
unconnected stopping socket settled = absurd settled

pub no_socket_left : (socket : Option ℕ) → is_some socket ≡ false → socket ≡ none
no_socket_left none h = refl
no_socket_left (some key) h = ground (arith, h)

module _ (now key : ℕ) (c : RtcmClient) (linked : IsLinked c) (free : is_connected c ≡ false) where
  start_attempt :
      (opening : Opening)
      → connect now key opening c
        ≡ open_socket now key opening (record c {
          state = connecting;
          stats = record c.stats { connection_attempts = c.stats.connection_attempts + 1 };
        })
  unfolding connect begin_connect
  start_attempt opening =
      rw
        (
          unconnected c.state c.socket linked.settled,
          no_socket_left c.socket (linked.has_socket ∙ free),
        )
        refl

  -- connect() ends in one of three ways.
  pub connect_cases :
      (opening : Opening)
      → (connect now key opening c ≡ (failed_client c.stats.authentication_failures c, false))
        ⊎ (connect now key opening c
            ≡ (failed_client (c.stats.authentication_failures + 1) c, false))
        ⊎ (connect now key opening c ≡ (connected_client now key c, true))
  unfolding open_socket is_heartbeat
  connect_cases no_socket = rw (start_attempt no_socket) (inl refl)
  connect_cases unreachable = rw (start_attempt unreachable) (inl refl)
  connect_cases (opened answer) = elim (Bool-cases (is_heartbeat answer)) [
    | inl accepted ↦
        rw (start_attempt (opened answer), accepted, linked.monitored ∙ free) (inr (inr refl))
    | inr rejected ↦ rw (start_attempt (opened answer), rejected) (inr (inl refl))
  ]
