-- ===== src/SurePath/Sends.antt =====
-- How the sends of src/sp_rtk_base_relay/core/destinations/surepath_destination.py
-- keep the statistics in step with the client's.
use sp_rtk_base_relay.Prelude.{
  ℕ, ◌+◌, ◌≡◌, refl, ◌∙◌, sym, ap, subst, inl, inr, String, Bool, true, false, Option, none, some,
  arith, by_branches, length, ltb, if◌then◌else◌,
}
use sp_rtk_base_relay.Rtcm.{Bytes}
use sp_rtk_base_relay.Client.{
  ClientConfig, RtcmClient, no_socket, Sending, disconnect, on_heartbeat_timeout,
  on_connection_lost, send_rtcm_data,
}
use sp_rtk_base_relay.Client.States.{is_disconnected}
use sp_rtk_base_relay.Client.Calls.{IsLinked, IsWithin, IsConfig}
use sp_rtk_base_relay.Client.Calls.Keeps.{
  lost-IsLinked, lost-IsWithin, disconnect-IsLinked, disconnect-IsWithin, send_cases,
}
use sp_rtk_base_relay.Destination.{Destination, Remote, send_chunk}
use sp_rtk_base_relay.Destination.Loop.{chunk_sent, chunk_failed}
use sp_rtk_base_relay.SurePath.{SurePath, send_data, surepath_remote, disconnect_client}
use sp_rtk_base_relay.SurePath.History.{
  History, lose_heartbeat, send_with, success_pending, attempt_pending, IsInStep,
}

-- disconnect() leaves these statistics alone.
disconnect_stats :
    (c : RtcmClient)
    → ((disconnect c).stats.messages_sent ≡ c.stats.messages_sent)
      × ((disconnect c).stats.bytes_sent ≡ c.stats.bytes_sent)
      × ((disconnect c).stats.connection_attempts ≡ c.stats.connection_attempts)
      × ((disconnect c).stats.successful_connections ≡ c.stats.successful_connections)
unfolding disconnect
disconnect_stats c =
    by_branches
      (λ (c' : RtcmClient).
        (c'.stats.messages_sent ≡ c.stats.messages_sent)
        × (c'.stats.bytes_sent ≡ c.stats.bytes_sent)
        × (c'.stats.connection_attempts ≡ c.stats.connection_attempts)
        × (c'.stats.successful_connections ≡ c.stats.successful_connections))
      (is_disconnected c.state) (λ off. (refl, refl, refl, refl)) (λ on. (refl, refl, refl, refl))

module _ (config : ClientConfig) (valid : IsConfig config) (h : History)
    (v : IsInStep config h) where
  -- The destination is disconnected, with a client that counts the same as before.
  pub disconnected-IsInStep :
      (d : Destination SurePath) (c : RtcmClient)
      → IsLinked c
      → IsWithin config c
      → d.stats.messages_sent ≡ c.stats.messages_sent
      → d.stats.bytes_sent ≡ c.stats.bytes_sent
      → d.stats.connection_attempts ≡ c.stats.connection_attempts
      → d.stats.successful_connections + h.unseen + success_pending h.phase
        ≡ c.stats.successful_connections
      → d.stats.connection_failures + d.stats.successful_connections + attempt_pending h.phase
        ≡ d.stats.connection_attempts
      → IsInStep config (record h {
        dest = record d { remote = disconnect_client (record h.dest.remote { client = c }) };
        failed_at = none;
      })
  unfolding disconnect_client
  disconnected-IsInStep d c linked within messages bytes attempts successes failures =
      let (messages', bytes', attempts', successes') = disconnect_stats c in
      record {
        linked = disconnect-IsLinked c linked;
        within = disconnect-IsWithin config valid c within;
        messages = messages ∙ sym messages';
        bytes = bytes ∙ sym bytes';
        attempts = attempts ∙ sym attempts';
        successes = successes ∙ sym successes';
        failures = failures;
        waits = λ t e. absurd (cc e);
        punctual = v.punctual;
      }

  pub heartbeat-IsInStep : IsInStep config (record h { dest = lose_heartbeat h.dest })
  unfolding lose_heartbeat on_heartbeat_timeout on_connection_lost
  heartbeat-IsInStep =
      let c = h.dest.remote.client in
      let noted : RtcmClient = record c {
        stats = record c.stats { heartbeat_timeouts = c.stats.heartbeat_timeouts + 1 };
      } in
      record {
        linked = lost-IsLinked noted;
        within = lost-IsWithin config valid noted (record {
          same_config = v.within.same_config;
          at_least = v.within.at_least;
          at_most = v.within.at_most;
        });
        messages = v.messages;
        bytes = v.bytes;
        attempts = v.attempts;
        successes = v.successes;
        failures = v.failures;
        waits = v.waits;
        punctual = v.punctual;
      }

  module _ (now : ℕ) (bytes : Bytes) (sending : Sending) where
    unfoldable pub IsSent : Destination SurePath → Type 0
    IsSent d = IsInStep config (record h {
      dest = d;
      failed_at = if ltb h.dest.stats.errors d.stats.errors then none else h.failed_at;
    })

    abbrev ops : Remote SurePath
    ops = surepath_remote now 0 no_socket sending

    answer : RtcmClient × Bool → Option String × SurePath
    answer (client, sent) = (
      if sent then none else some "send_rtcm_data returned False",
      record h.dest.remote { client = client },
    )

    answered :
        (result : RtcmClient × Bool)
        → send_rtcm_data bytes sending h.dest.remote.client ≡ result
        → ◌≡◌ {A = Option String × SurePath} (ops.send_data bytes h.dest.remote) (answer result)
    unfolding surepath_remote send_data answer
    answered result e = ap answer e

    -- As after an error: one that did not happen would leave the number as it is.
    broken-IsSent :
        (c : RtcmClient)
        → send_rtcm_data bytes sending h.dest.remote.client ≡ (c, false)
        → IsLinked c
        → IsWithin config c
        → h.dest.remote.client.stats.messages_sent ≡ c.stats.messages_sent
        → h.dest.remote.client.stats.bytes_sent ≡ c.stats.bytes_sent
        → h.dest.remote.client.stats.connection_attempts ≡ c.stats.connection_attempts
        → h.dest.remote.client.stats.successful_connections ≡ c.stats.successful_connections
        → IsSent (send_chunk ops now bytes h.dest)
    unfolding answer IsSent surepath_remote
    broken-IsSent c e linked within messages sent attempts successes =
        let a = answered (c, false) e in
        let failed : Destination SurePath = record h.dest {
          stats = record h.dest.stats {
            errors = h.dest.stats.errors + 1;
            last_error = some "send_rtcm_data returned False";
          };
          remote = disconnect_client (record h.dest.remote { client = c });
        } in
        subst IsSent
          (sym (
            chunk_failed ops now bytes h.dest "send_rtcm_data returned False"
              (ap (λ (p : Option String × SurePath). p.0) a)
            ∙ ap
                (λ (p : Option String × SurePath). record failed { remote = disconnect_client p.1 })
                a))
          (by_branches
            (λ (t : Option ℕ). IsInStep config (record h { dest = failed; failed_at = t }))
            (ltb h.dest.stats.errors (h.dest.stats.errors + 1))
            (λ more.
              disconnected-IsInStep failed c linked within (v.messages ∙ messages) (v.bytes ∙ sent)
                (v.attempts ∙ attempts) (v.successes ∙ successes) v.failures)
            (λ same. absurd (ground (arith, same))))

    went-IsSent :
        send_rtcm_data bytes sending h.dest.remote.client ≡ (
          record h.dest.remote.client {
            stats = record h.dest.remote.client.stats {
              bytes_sent = h.dest.remote.client.stats.bytes_sent + length bytes;
              messages_sent = h.dest.remote.client.stats.messages_sent + 1;
            };
          },
          true,
        )
        → IsSent (send_chunk ops now bytes h.dest)
    unfolding answer IsSent
    went-IsSent e =
        let a = answered _ e in
        let sent_stats = record h.dest.stats {
          bytes_sent = h.dest.stats.bytes_sent + length bytes;
          messages_sent = h.dest.stats.messages_sent + 1;
          last_send_time = now;
        } in
        let c : RtcmClient = record h.dest.remote.client {
          stats = record h.dest.remote.client.stats {
            bytes_sent = h.dest.remote.client.stats.bytes_sent + length bytes;
            messages_sent = h.dest.remote.client.stats.messages_sent + 1;
          };
        } in
        let d : Destination SurePath = record h.dest {
          stats = sent_stats;
          remote = record h.dest.remote { client = c };
        } in
        subst IsSent
          (sym (
            chunk_sent ops now bytes h.dest (ap (λ (p : Option String × SurePath). p.0) a)
            ∙ ap (λ (p : Option String × SurePath). record d { remote = p.1 }) a))
          (by_branches (λ (t : Option ℕ). IsInStep config (record h { dest = d; failed_at = t }))
            (ltb h.dest.stats.errors h.dest.stats.errors) (λ more. absurd (ground (arith, more)))
            (λ same. record {
              linked = record {
                settled = v.linked.settled;
                has_socket = v.linked.has_socket;
                monitored = v.linked.monitored;
                same_socket = v.linked.same_socket;
                since = v.linked.since;
              };
              within = record {
                same_config = v.within.same_config;
                at_least = v.within.at_least;
                at_most = v.within.at_most;
              };
              messages = omega (arith, v.messages);
              bytes = omega (arith, v.bytes);
              attempts = v.attempts;
              successes = v.successes;
              failures = v.failures;
              waits = v.waits;
              punctual = v.punctual;
            }))

    pub chunk-IsSent : IsSent (send_chunk ops now bytes h.dest)
    unfolding on_connection_lost
    chunk-IsSent = elim (send_cases bytes sending h.dest.remote.client) [
      | inl e ↦ broken-IsSent h.dest.remote.client e v.linked v.within refl refl refl refl
      | inr (inl (connected, e)) ↦ went-IsSent e
      | inr (inr e) ↦
          broken-IsSent (on_connection_lost h.dest.remote.client) e
            (lost-IsLinked h.dest.remote.client)
            (lost-IsWithin config valid h.dest.remote.client v.within) refl refl refl refl
    ]

  -- The thread goes on once the chunk is sent or has failed.
  pub sent-IsInStep :
      (now : ℕ) (bytes : Bytes) (sending : Sending)
      → IsInStep config (send_with now bytes sending h)
  unfolding send_with IsSent
  sent-IsInStep now bytes sending = chunk-IsSent now bytes sending
