-- ===== src/Hub/Input/Backoff.antt =====
-- The attempts of _reconnect_input of
-- src/sp_rtk_base_relay/core/broadcast_hub.py.
use sp_rtk_base_relay.Prelude.{
  ℕ, ◌+◌, ◌*◌, ◌≤◌, ◌≡◌, refl, min, inl, inr, String, Bool, true, false, none, some, List, [], ◌∷◌,
  length, All, arith, Bool-cases,
}
use sp_rtk_base_relay.Hub.Input.{
  InputSource, Attempt, accepted, refused, raised, InputSide, count_reason, record_input_failure,
  after_attempt, attempt_reconnect, wait_of, reconnect_loop, reconnect_input,
}

pub total_failures : List (String × ℕ) → ℕ
total_failures [] = 0
total_failures ((reason, count) ∷ failures) = count + total_failures failures

pub one_if : Bool → ℕ
one_if true = 1
one_if false = 0

total-count_reason :
    (reason : String) (failures : List (String × ℕ))
    → total_failures (count_reason reason failures) ≡ total_failures failures + 1
unfolding total_failures count_reason
total-count_reason reason [] = omega arith
total-count_reason reason ((known, count) ∷ failures) =
    ground (arith, total-count_reason reason failures)

-- What a run of attempts did: every attempt is counted, as a success or under a reason, and each
-- failed one was followed by one wait, of at most `limit`; with a success there is no last error.
pub record IsReconnected {I : Type 0} (limit : ℕ) (s s' : InputSide I) (waits : List ℕ)
    (connected : Bool) : Type 0 where
  pub attempts : s'.reconnect_attempts ≡ s.reconnect_attempts + length waits + one_if connected
  pub successes : s'.reconnect_successes ≡ s.reconnect_successes + one_if connected
  pub failures :
      total_failures s'.connection_failures ≡ total_failures s.connection_failures + length waits
  pub within : All (λ wait. wait ≤ limit) waits
  pub cleared : connected ≡ true → s'.input_last_error ≡ none

module _ {I : Type 0} (source : InputSource I) (otherwise : String) where
  abbrev IsCounted : InputSide I → InputSide I × Bool → Type 0
  IsCounted s (s', connected) =
      (s'.reconnect_attempts ≡ s.reconnect_attempts)
      × (s'.reconnect_successes ≡ s.reconnect_successes + one_if connected)
      × (total_failures s'.connection_failures + one_if connected
          ≡ total_failures s.connection_failures + 1)
      × (connected ≡ true → s'.input_last_error ≡ none)

  after_attempt-IsCounted :
      (attempt : Attempt) (s : InputSide I) → IsCounted s (after_attempt source otherwise attempt s)
  unfolding after_attempt record_input_failure one_if
  after_attempt-IsCounted accepted s = (refl, refl, omega arith, λ e. refl)
  after_attempt-IsCounted refused s =
      let counted = total-count_reason "connect" s.connection_failures in
      (refl, omega arith, omega (arith, counted), λ e. cc e)
  after_attempt-IsCounted (raised none text) s =
      let counted = total-count_reason "connect" s.connection_failures in
      (refl, omega arith, omega (arith, counted), λ e. cc e)
  after_attempt-IsCounted (raised (some reason) text) s =
      let counted = total-count_reason reason s.connection_failures in
      (refl, omega arith, omega (arith, counted), λ e. cc e)

  attempt_parts :
      (s : InputSide I)
      → let (s', connected) = attempt_reconnect source otherwise s in
        (s'.reconnect_attempts ≡ s.reconnect_attempts + 1)
        × (s'.reconnect_successes ≡ s.reconnect_successes + one_if connected)
        × (total_failures s'.connection_failures + one_if connected
            ≡ total_failures s.connection_failures + 1)
        × (connected ≡ true → s'.input_last_error ≡ none)
  unfolding attempt_reconnect
  attempt_parts s =
      let (attempt, input') = source.connect s.input in
      after_attempt-IsCounted attempt
        (record s { input = input'; reconnect_attempts = s.reconnect_attempts + 1 })

  wait_of_le :
      (delay : ℕ) (s : InputSide I)
      → delay ≤ source.reconnect_policy.max_delay
      → wait_of source delay s ≤ source.reconnect_policy.max_delay
  unfolding wait_of
  wait_of_le delay s h = ground (arith, h)

  reconnect_loop-IsReconnected :
      (answers : List Bool) (delay : ℕ) (s : InputSide I)
      → delay ≤ source.reconnect_policy.max_delay
      → let (s', waits, connected) = reconnect_loop source otherwise answers delay s in
        IsReconnected source.reconnect_policy.max_delay s s' waits connected
  unfolding reconnect_loop one_if
  reconnect_loop-IsReconnected [] delay s h = record {
    attempts = omega arith;
    successes = omega arith;
    failures = omega arith;
    within = tt;
    cleared = λ e. cc e;
  }
  reconnect_loop-IsReconnected (stopping ∷ answers) delay s h =
      let (s', connected) = attempt_reconnect source otherwise s in
      let (attempts, successes, failures, cleared) = attempt_parts s in
      let wait = wait_of source delay s' in
      let policy = source.reconnect_policy in
      let bounded = wait_of_le delay s' h in
      let r =
        reconnect_loop-IsReconnected answers (min (wait * policy.multiplier) policy.max_delay) s'
          (omega arith) in
      elim (Bool-cases connected) [
        | inl on ↦ rw on (record {
          attempts = omega (arith, attempts);
          successes = ground (arith, successes, on);
          failures = ground (arith, failures, on);
          within = tt;
          cleared = λ e. cleared on;
        })
        | inr off ↦ elim (Bool-cases stopping) [
          | inl ends ↦
              rw (off, ends)
                (record {
                  attempts = omega (arith, attempts);
                  successes = ground (arith, successes, off);
                  failures = ground (arith, failures, off);
                  within = (bounded, tt);
                  cleared = λ e. cc e;
                })
          | inr goes_on ↦
              rw (off, goes_on)
                (record {
                  attempts = omega (arith, attempts, r.attempts);
                  successes = ground (arith, successes, off, r.successes);
                  failures = ground (arith, failures, off, r.failures);
                  within = (bounded, r.within);
                  cleared = r.cleared;
                })
        ]
      ]

  -- However long the hub tries to connect its input again: every attempt is counted, as a success or
  -- as a failure under some reason; every failed attempt is followed by one wait; no wait is longer
  -- than the policy's maximum, if the first is not; and once connected there is no last error.
  pub reconnect_input-IsReconnected :
      (answers : List Bool) (s : InputSide I)
      → source.reconnect_policy.initial_delay ≤ source.reconnect_policy.max_delay
      → let (s', waits, connected) = reconnect_input source otherwise answers s in
        IsReconnected source.reconnect_policy.max_delay s s' waits connected
  unfolding reconnect_input
  reconnect_input-IsReconnected answers s h =
      reconnect_loop-IsReconnected answers source.reconnect_policy.initial_delay s h
