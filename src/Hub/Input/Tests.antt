-- ===== src/Hub/Input/Tests.antt =====
-- An input of src/sp_rtk_base_relay/core/broadcast_hub.py that connects when its number is 0.
use sp_rtk_base_relay.Prelude.{
  ℕ, zero, suc, ◌≡◌, refl, Bool, false, none, some, List, [], ◌∷◌, length, arith,
}
use sp_rtk_base_relay.Hub.Input.{
  InputSource, Attempt, accepted, refused, raised, InputSide, default_reconnect_policy,
  record_input_failure, after_attempt, attempt_reconnect, wait_of, reconnect_loop, reconnect_input,
}
use sp_rtk_base_relay.Hub.Input.Backoff.{IsReconnected, reconnect_input-IsReconnected}
use sp_rtk_base_relay.Hub.Input.Waits.{backoff, reconnect_input-backoff}

attempt : ℕ → Attempt × ℕ
attempt zero = (accepted, 0)
attempt (suc zero) = (refused, 0)
attempt (suc (suc n)) = (raised (some "auth") "rejected", suc n)

abbrev source : InputSource ℕ
source = record {
  source_type = "tcp";
  connect = attempt;
  disconnect = λ n. n;
  is_connected = λ n. false;
  last_error = λ n. none;
  last_failure_persistent = λ n. false;
  reconnect_policy = default_reconnect_policy;
}

abbrev side : InputSide ℕ
side = record {
  input = 7;
  reconnect_attempts = 3;
  reconnect_successes = 1;
  connection_failures = [];
  input_last_error = some "gone";
}

abbrev answers : List Bool
answers = false ∷ false ∷ false ∷ false ∷ false ∷ false ∷ false ∷ false ∷ false ∷ []

waits_doubling :
    (reconnect_input source "failed" answers side).1 ≡ 2 ∷ 4 ∷ 8 ∷ 16 ∷ 32 ∷ 60 ∷ 60 ∷ []
unfolding reconnect_input reconnect_loop attempt_reconnect after_attempt record_input_failure
    wait_of attempt
waits_doubling = refl

reconnect_input-IsReconnected_example :
    let (s', waits, connected) = reconnect_input source "failed" answers side in
    IsReconnected 60 side s' waits connected
reconnect_input-IsReconnected_example =
    reconnect_input-IsReconnected source "failed" answers side (omega arith)

reconnect_input-backoff_example :
    let (s', waits, connected) = reconnect_input source "failed" answers side in
    waits ≡ backoff default_reconnect_policy 0 (length waits)
reconnect_input-backoff_example =
    reconnect_input-backoff source "failed" answers side (λ n. refl) (omega arith) (omega arith)
