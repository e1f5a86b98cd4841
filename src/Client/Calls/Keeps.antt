-- ===== src/Client/Calls/Keeps.antt =====
-- What the methods of an RTCMClient keep.
use sp_rtk_base_relay.Prelude.{
  is_some, ℕ, ◌+◌, ◌≤◌, ◌≡◌, refl, ◌∙◌, sym, ap, subst, ◌⊎◌, inl, inr, true, false, not, ◌||◌,
  length, arith, Bool-cases,
}
use native.Mathlib.Nat.{le-div_iff_mul-le, mul-le-mul_left}
use sp_rtk_base_relay.Rtcm.{Bytes}
use sp_rtk_base_relay.Client.{
  ClientConfig, RtcmClient, Sending, went, os_error, other_error, disconnect, send_rtcm_data,
  after_send, on_connection_lost, is_connected, scaled,
}
use sp_rtk_base_relay.Client.States.{is_disconnected}
use sp_rtk_base_relay.Client.Calls.{Session, IsSettled, IsLinked, IsConfig, IsWithin, IsCounted}
use sp_rtk_base_relay.Client.Calls.Connects.{no_socket_left, failed_client, connected_client}

scaled-le :
    (config : ClientConfig) (delay : ℕ)
    → IsConfig config
    → delay ≤ scaled delay config.retry_multiplier
scaled-le config delay valid =
    (le-div_iff_mul-le valid.fraction).1 (mul-le-mul_left delay valid.growing)

pub lost-IsLinked : (c : RtcmClient) → IsLinked (on_connection_lost c)
unfolding on_connection_lost IsSettled
lost-IsLinked c = record {
  settled = tt;
  has_socket = refl;
  monitored = refl;
  same_socket = refl;
  since = refl;
}

pub disconnect-IsLinked : (c : RtcmClient) → IsLinked c → IsLinked (disconnect c)
unfolding disconnect IsSettled
disconnect-IsLinked c linked = elim (Bool-cases (is_disconnected c.state)) [
  | inl off ↦ rw off linked
  | inr on ↦ rw on (record {
    settled = tt;
    has_socket = refl;
    monitored = refl;
    same_socket = refl;
    since = refl;
  })
]

pub failed-IsLinked :
    (failures : ℕ) (c : RtcmClient)
    → IsLinked c
    → is_connected c ≡ false
    → IsLinked (failed_client failures c)
unfolding IsSettled
failed-IsLinked failures c linked free = record {
  settled = tt;
  has_socket = refl;
  monitored = linked.monitored ∙ free;
  same_socket = linked.same_socket ∙ no_socket_left c.socket (linked.has_socket ∙ free);
  since = linked.since ∙ free;
}

pub failed-IsWithin :
    (config : ClientConfig) (failures : ℕ) (c : RtcmClient)
    → IsWithin config c
    → IsWithin config (failed_client failures c)
failed-IsWithin config failures c within = record {
  same_config = within.same_config;
  at_least = within.at_least;
  at_most = within.at_most;
}

module _ (config : ClientConfig) (valid : IsConfig config) where
  pub lost-IsWithin : (c : RtcmClient) → IsWithin config c → IsWithin config (on_connection_lost c)
  unfolding on_connection_lost
  lost-IsWithin c within =
      let delay = c.current_retry_delay in
      let grows : delay ≤ scaled delay c.config.retry_multiplier =
        subst (λ (f : ClientConfig). delay ≤ scaled delay f.retry_multiplier)
          (sym within.same_config) (scaled-le config delay valid) in
      let limit = ap (λ (f : ClientConfig). f.retry_max_delay) within.same_config in
      record {
        same_config = within.same_config;
        at_least = ground (arith, within.at_least, valid.ordered, grows, limit);
        at_most = ground (arith, limit);
      }

  pub disconnect-IsWithin : (c : RtcmClient) → IsWithin config c → IsWithin config (disconnect c)
  unfolding disconnect
  disconnect-IsWithin c within = elim (Bool-cases (is_disconnected c.state)) [
    | inl off ↦ rw off within
    | inr on ↦ rw on (record {
      same_config = within.same_config;
      at_least = within.at_least;
      at_most = within.at_most;
    })
  ]

  pub connected-IsWithin :
      (now key : ℕ) (c : RtcmClient)
      → IsWithin config c
      → IsWithin config (connected_client now key c)
  connected-IsWithin now key c within = record {
    same_config = within.same_config;
    at_least =
        subst (λ (f : ClientConfig). config.retry_initial_delay ≤ f.retry_initial_delay)
          (sym within.same_config) (omega arith);
    at_most =
        subst (λ (f : ClientConfig). f.retry_initial_delay ≤ config.retry_max_delay)
          (sym within.same_config) valid.ordered;
  }

pub disconnect-IsCounted :
    (s : Session) → IsCounted s → IsCounted (record s { client = disconnect s.client })
unfolding disconnect
disconnect-IsCounted s counted = elim (Bool-cases (is_disconnected s.client.state)) [
  | inl off ↦ rw off counted
  | inr on ↦ rw on (record {
    attempts = counted.attempts;
    successful = counted.successful;
    failures = counted.failures;
    bytes = counted.bytes;
    messages = counted.messages;
    missed = counted.missed;
  })
]

pub lost-IsCounted :
    (s : Session) → IsCounted s → IsCounted (record s { client = on_connection_lost s.client })
unfolding on_connection_lost
lost-IsCounted s counted = record {
  attempts = counted.attempts;
  successful = counted.successful;
  failures = counted.failures;
  bytes = counted.bytes;
  messages = counted.messages;
  missed = counted.missed;
}

after_send_cases :
    (bytes : Bytes) (sending : Sending) (c : RtcmClient)
    → is_connected c ≡ true
    → (after_send bytes sending c ≡ (c, false))
      ⊎ (((is_connected c ≡ true)
            × (after_send bytes sending c ≡ (
              record c {
                stats = record c.stats {
                  bytes_sent = c.stats.bytes_sent + length bytes;
                  messages_sent = c.stats.messages_sent + 1;
                };
              },
              true,
            )))
          ⊎ (after_send bytes sending c ≡ (on_connection_lost c, false)))
unfolding after_send
after_send_cases bytes went c on = inr (inl (on, refl))
after_send_cases bytes os_error c on = inr (inr refl)
after_send_cases bytes other_error c on = inl refl

-- A send leaves the client as it is, counts what was sent, or loses the connection.
pub send_cases :
    (bytes : Bytes) (sending : Sending) (c : RtcmClient)
    → (send_rtcm_data bytes sending c ≡ (c, false))
      ⊎ (((is_connected c ≡ true)
            × (send_rtcm_data bytes sending c ≡ (
              record c {
                stats = record c.stats {
                  bytes_sent = c.stats.bytes_sent + length bytes;
                  messages_sent = c.stats.messages_sent + 1;
                };
              },
              true,
            )))
          ⊎ (send_rtcm_data bytes sending c ≡ (on_connection_lost c, false)))
unfolding send_rtcm_data
send_cases bytes sending c = elim (Bool-cases (not (is_connected c) || not (is_some c.socket))) [
  | inl not_ready ↦ simp not_ready (inl refl)
  | inr ready ↦ simp ready (after_send_cases bytes sending c (ground (arith, ready)))
]
