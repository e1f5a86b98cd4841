-- ===== src/Hub/Input.antt =====
-- How the hub of src/sp_rtk_base_relay/core/broadcast_hub.py connects its input source again:
-- _reconnect_input and _record_input_failure, with the policy of
-- src/sp_rtk_base_relay/core/input_sources/base_input.py.
-- The input source is the interface `InputSource`, over a state of its own. Delays and the
-- multiplier are whole numbers, as in the default policy; fractions are not modelled. An answer of the wait between two attempts is
-- true if the hub is stopping; the answers are given, and when they end the hub has been stopped.
pub mod Backoff
pub mod Waits
mod Tests
use sp_rtk_base_relay.Prelude.{
  ℕ, zero, suc, ◌+◌, ◌*◌, min, String, Bool, true, false, Option, none, some, List, [], ◌∷◌,
  if◌then◌else◌,
}
use sp_rtk_base_relay.Prelude.Text.{same_text}

pub record ReconnectPolicy : Type 0 where
  pub initial_delay : ℕ
  pub max_delay : ℕ
  pub multiplier : ℕ

abbrev pub default_reconnect_policy : ReconnectPolicy
default_reconnect_policy = record { initial_delay = 2; max_delay = 60; multiplier = 2 }

-- What connect() does: it returns true or false, or raises an error, which has a reason if it is an
-- NtripConnectionError, and a text.
pub data Attempt : Type 0 where
  accepted : Attempt
  refused : Attempt
  raised : Option String → String → Attempt

pub record InputSource (I : Type 0) : Type 0 where
  pub source_type : String
  pub connect : I → Attempt × I
  pub disconnect : I → I
  pub is_connected : I → Bool
  pub last_error : I → Option String
  pub last_failure_persistent : I → Bool
  pub reconnect_policy : ReconnectPolicy

-- The input with the hub's statistics about it.
pub record InputSide (I : Type 0) : Type 0 where
  pub input : I
  pub reconnect_attempts : ℕ
  pub reconnect_successes : ℕ
  pub connection_failures : List (String × ℕ)
  pub input_last_error : Option String

-- failures[reason] = failures.get(reason, 0) + 1
pub count_reason : String → List (String × ℕ) → List (String × ℕ)
count_reason reason [] = (reason, 1) ∷ []
count_reason reason ((known, count) ∷ failures) =
    let later = count_reason reason failures in
    if same_text known reason then (known, count + 1) ∷ failures else (known, count) ∷ later

abbrev pub reason_of : Option String → String
reason_of none = "connect"
reason_of (some reason) = reason

module _ {I : Type 0} (source : InputSource I) where
  error_text : Option String → I → String → String
  error_text (some text) input otherwise = text
  error_text none input otherwise = elim (source.last_error input) [
    | some text ↦ text
    | none ↦ otherwise
  ]

  -- `typed` is the reason of a typed error; `text` is none when connect() returned False. The text
  -- without any error is given.
  pub record_input_failure : String → Option String → Option String → InputSide I → InputSide I
  unfolding error_text
  record_input_failure otherwise typed text s = record s {
    connection_failures = count_reason (reason_of typed) s.connection_failures;
    input_last_error = some (error_text text s.input otherwise);
  }

  -- One attempt: true if the input is connected.
  after_attempt : String → Attempt → InputSide I → InputSide I × Bool
  after_attempt otherwise accepted s =
      (record s { reconnect_successes = s.reconnect_successes + 1; input_last_error = none }, true)
  after_attempt otherwise refused s = (record_input_failure otherwise none none s, false)
  after_attempt otherwise (raised typed text) s =
      (record_input_failure otherwise typed (some text) s, false)

  pub attempt_reconnect : String → InputSide I → InputSide I × Bool
  unfolding after_attempt
  attempt_reconnect otherwise s =
      let (attempt, input') = source.connect s.input in
      after_attempt otherwise attempt
        (record s { input = input'; reconnect_attempts = s.reconnect_attempts + 1 })

  pub wait_of : ℕ → InputSide I → ℕ
  wait_of delay s =
      if source.last_failure_persistent s.input then source.reconnect_policy.max_delay else delay

  -- The delays waited for, and whether the input is connected.
  pub reconnect_loop : String → List Bool → ℕ → InputSide I → InputSide I × List ℕ × Bool
  reconnect_loop otherwise [] delay s = (s, [], false)
  reconnect_loop otherwise (stopping ∷ answers) delay s =
      let (s', connected) = attempt_reconnect otherwise s in
      let wait = wait_of delay s' in
      let policy = source.reconnect_policy in
      let (s'', waits, connected') =
        reconnect_loop otherwise answers (min (wait * policy.multiplier) policy.max_delay) s' in
      if connected
      then (s', [], true)
      else if stopping
      then (s', wait ∷ [], false)
      else (s'', wait ∷ waits, connected')

  pub reconnect_input : String → List Bool → InputSide I → InputSide I × List ℕ × Bool
  reconnect_input otherwise answers s =
      reconnect_loop otherwise answers source.reconnect_policy.initial_delay s
