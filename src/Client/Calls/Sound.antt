-- ===== src/Client/Calls/Sound.antt =====
-- What holds of an RTCMClient between its calls.
use sp_rtk_base_relay.Prelude.{
  ℕ, ◌+◌, ◌≤◌, ◌≡◌, refl, inl, inr, false, List, [], ◌∷◌, ◌++◌, length, length-append, arith,
}
use sp_rtk_base_relay.Rtcm.{Bytes}
use sp_rtk_base_relay.Client.{
  ClientConfig, RtcmClient, Opening, Sending, on_heartbeat_timeout, on_connection_lost,
  is_connected,
}
use sp_rtk_base_relay.Client.Calls.{
  Call, connect_call, disconnect_call, send_call, timeout_call, Session, step, run, IsFree,
  IsOrderly, IsSettled, IsConfig, IsSound,
}
use sp_rtk_base_relay.Client.Calls.Connects.{connect_cases, failed_client, connected_client}
use sp_rtk_base_relay.Client.Calls.Keeps.{
  lost-IsLinked, disconnect-IsLinked, failed-IsLinked, disconnect-IsCounted, lost-IsCounted,
  send_cases, failed-IsWithin, lost-IsWithin, disconnect-IsWithin, connected-IsWithin,
}

failed-IsSound :
    (config : ClientConfig) (failures : ℕ) (s : Session)
    → IsSound config s
    → is_connected s.client ≡ false
    → s.successes + failures ≤ s.connects + 1
    → IsSound config
        (record s { client = failed_client failures s.client; connects = s.connects + 1 })
failed-IsSound config failures s sound free fits = record {
  linked = failed-IsLinked failures s.client sound.linked free;
  within = failed-IsWithin config failures s.client sound.within;
  counted = record {
    attempts = omega (arith, sound.counted.attempts);
    successful = sound.counted.successful;
    failures = fits;
    bytes = sound.counted.bytes;
    messages = sound.counted.messages;
    missed = sound.counted.missed;
  };
}

module _ (config : ClientConfig) (valid : IsConfig config) (s : Session)
    (sound : IsSound config s) where
  connected-IsSound :
      (now key : ℕ)
      → IsSound config (record s {
        client = connected_client now key s.client;
        connects = s.connects + 1;
        successes = s.successes + 1;
      })
  unfolding IsSettled
  connected-IsSound now key = record {
    linked = record {
      settled = tt;
      has_socket = refl;
      monitored = refl;
      same_socket = refl;
      since = refl;
    };
    within = connected-IsWithin config valid now key s.client sound.within;
    counted = record {
      attempts = omega (arith, sound.counted.attempts);
      successful = omega (arith, sound.counted.successful);
      failures = omega (arith, sound.counted.failures);
      bytes = sound.counted.bytes;
      messages = sound.counted.messages;
      missed = sound.counted.missed;
    };
  }

  connect-IsSound :
      (now key : ℕ) (opening : Opening)
      → is_connected s.client ≡ false
      → IsSound config (step s (connect_call now key opening))
  unfolding step
  connect-IsSound now key opening free =
      let failures = s.client.stats.authentication_failures in
      elim (connect_cases now key s.client sound.linked free opening) [
        | inl e ↦
            rw e
              (failed-IsSound config failures s sound free (omega (arith, sound.counted.failures)))
        | inr (inl e) ↦ rw e (
            failed-IsSound config (failures + 1) s sound free
              (omega (arith, sound.counted.failures)))
        | inr (inr e) ↦ rw e (connected-IsSound now key)
      ]

  disconnect-IsSound : IsSound config (step s disconnect_call)
  unfolding step
  disconnect-IsSound = record {
    linked = disconnect-IsLinked s.client sound.linked;
    within = disconnect-IsWithin config valid s.client sound.within;
    counted = disconnect-IsCounted s sound.counted;
  }

  timeout-IsSound : IsSound config (step s timeout_call)
  unfolding step on_heartbeat_timeout on_connection_lost
  timeout-IsSound =
      let noted : RtcmClient = record s.client {
        stats = record s.client.stats {
          heartbeat_timeouts = s.client.stats.heartbeat_timeouts + 1;
        };
      } in
      record {
        linked = lost-IsLinked noted;
        within = lost-IsWithin config valid noted (record {
          same_config = sound.within.same_config;
          at_least = sound.within.at_least;
          at_most = sound.within.at_most;
        });
        counted = record {
          attempts = sound.counted.attempts;
          successful = sound.counted.successful;
          failures = sound.counted.failures;
          bytes = sound.counted.bytes;
          messages = sound.counted.messages;
          missed = omega (arith, sound.counted.missed);
        };
      }

  went-IsSound :
      (bytes : Bytes)
      → IsSound config (record s {
        client = record s.client {
          stats = record s.client.stats {
            bytes_sent = s.client.stats.bytes_sent + length bytes;
            messages_sent = s.client.stats.messages_sent + 1;
          };
        };
        sent = s.sent ++ bytes;
        sends = s.sends + 1;
      })
  went-IsSound bytes = record {
    linked = record {
      settled = sound.linked.settled;
      has_socket = sound.linked.has_socket;
      monitored = sound.linked.monitored;
      same_socket = sound.linked.same_socket;
      since = sound.linked.since;
    };
    within = record {
      same_config = sound.within.same_config;
      at_least = sound.within.at_least;
      at_most = sound.within.at_most;
    };
    counted = record {
      attempts = sound.counted.attempts;
      successful = sound.counted.successful;
      failures = sound.counted.failures;
      bytes = omega (arith, sound.counted.bytes, length-append s.sent bytes);
      messages = omega (arith, sound.counted.messages);
      missed = sound.counted.missed;
    };
  }

  send-IsSound :
      (bytes : Bytes) (sending : Sending) → IsSound config (step s (send_call bytes sending))
  unfolding step
  send-IsSound bytes sending = elim (send_cases bytes sending s.client) [
    | inl e ↦ rw e sound
    | inr (inl (sent, e)) ↦ rw e (went-IsSound bytes)
    | inr (inr e) ↦ rw e (record {
      linked = lost-IsLinked s.client;
      within = lost-IsWithin config valid s.client sound.within;
      counted = lost-IsCounted s sound.counted;
    })
  ]

  step-IsSound : (call : Call) → IsFree s call → IsSound config (step s call)
  step-IsSound (connect_call now key opening) free = connect-IsSound now key opening free
  step-IsSound disconnect_call free = disconnect-IsSound
  step-IsSound (send_call bytes sending) free = send-IsSound bytes sending
  step-IsSound timeout_call free = timeout-IsSound

-- Through any calls of connect, disconnect, send_rtcm_data and the heartbeat timeout, if the settings
-- are valid and connect is called only while the client is not connected: between the calls the
-- state is DISCONNECTED, CONNECTED or ERROR; exactly in CONNECTED the client has a socket, a running
-- monitor and a time, and the monitor watches this socket; the retry delay stays between the initial
-- and the maximal one; and the statistics are what the callers count.
pub run-IsSound :
    (config : ClientConfig)
    → IsConfig config
    → (s : Session) (calls : List Call) → IsSound config s
    → IsOrderly s calls
    → IsSound config (run s calls)
unfolding run IsOrderly
run-IsSound config valid s [] sound orderly = sound
run-IsSound config valid s (call ∷ calls) sound orderly =
    run-IsSound config valid (step s call) calls (step-IsSound config valid s sound call orderly.0)
      orderly.1
