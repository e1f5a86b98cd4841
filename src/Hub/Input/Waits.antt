-- ===== src/Hub/Input/Waits.antt =====
-- How long _reconnect_input of src/sp_rtk_base_relay/core/broadcast_hub.py waits.
use native.Mathlib.Numerals.{unary_clauses}
use sp_rtk_base_relay.Prelude.{
  ℕ, zero, suc, ◌*◌, ◌^◌, ◌≤◌, ◌≡◌, refl, ◌∙◌, ap, sym, subst, min, ◌⊎◌, inl, inr, String, Bool,
  false, List, [], ◌∷◌, length, arith, Bool-cases,
}
use native.Mathlib.Nat.{pow-suc}
use sp_rtk_base_relay.Hub.Input.{
  InputSource, ReconnectPolicy, InputSide, attempt_reconnect, wait_of, reconnect_loop,
  reconnect_input,
}

-- The waits from the `k`-th on, as powers of the multiplier.
pub backoff : ReconnectPolicy → ℕ → ℕ → List ℕ
backoff policy k zero = []
backoff policy k (suc count) =
    min (policy.initial_delay * policy.multiplier ^ k) policy.max_delay
    ∷ backoff policy (suc k) count

lt_or_le : (x limit : ℕ) → (x ≤ limit) ⊎ (limit ≤ x)
lt_or_le x limit = omega arith

min_low : (x limit : ℕ) → x ≤ limit → min x limit ≡ x
min_low x limit h = omega (arith, h)

min_high : (x limit : ℕ) → limit ≤ x → min x limit ≡ limit
min_high x limit h = omega (arith, h)

grown : (x limit m : ℕ) → 1 ≤ m → min (min x limit * m) limit ≡ min (x * m) limit
grown x limit zero h = absurd (omega (arith, h))
grown x limit (suc m) h = elim (lt_or_le x limit) [
  | inl low ↦ rw (min_low x limit low) refl
  | inr high ↦ rw (min_high x limit high) (
      min_high (limit * suc m) limit (grind (arith, high))
      ∙ sym (min_high (x * suc m) limit (grind (arith, high))))
]

power_zero : (m : ℕ) → m ^ 0 ≡ 1
power_zero m = simp unary_clauses refl

next_delay :
    (policy : ReconnectPolicy) (k : ℕ)
    → 1 ≤ policy.multiplier
    → min
        (min (policy.initial_delay * policy.multiplier ^ k) policy.max_delay * policy.multiplier)
        policy.max_delay
      ≡ min (policy.initial_delay * policy.multiplier ^ suc k) policy.max_delay
next_delay policy k h =
    let m = policy.multiplier in
    grown (policy.initial_delay * m ^ k) policy.max_delay m h
    ∙ ap (λ (t : ℕ). min t policy.max_delay) (grind (arith, pow-suc m k))

module _ {I : Type 0} (source : InputSource I) (otherwise : String) where
  passing_wait :
      (delay : ℕ) (s : InputSide I)
      → ((input : I) → source.last_failure_persistent input ≡ false)
      → wait_of source delay s ≡ delay
  unfolding wait_of
  passing_wait delay s passing = rw (passing s.input) refl

  reconnect_loop-backoff :
      (answers : List Bool) (k : ℕ) (s : InputSide I)
      → ((input : I) → source.last_failure_persistent input ≡ false)
      → 1 ≤ source.reconnect_policy.multiplier
      → let policy = source.reconnect_policy in
        let (s', waits, connected) =
          reconnect_loop source otherwise answers
            (min (policy.initial_delay * policy.multiplier ^ k) policy.max_delay)
            s in
        waits ≡ backoff policy k (length waits)
  unfolding reconnect_loop backoff
  reconnect_loop-backoff [] k s passing h = refl
  reconnect_loop-backoff (stopping ∷ answers) k s passing h =
      let (s', connected) = attempt_reconnect source otherwise s in
      let policy = source.reconnect_policy in
      let delay = min (policy.initial_delay * policy.multiplier ^ k) policy.max_delay in
      let same = passing_wait delay s' passing in
      elim (Bool-cases connected) [
        | inl on ↦ rw on refl
        | inr off ↦ elim (Bool-cases stopping) [
          | inl ends ↦ rw (off, ends, same) refl
          | inr goes_on ↦
              rw (off, goes_on, same, next_delay policy k h)
                (ap (λ waits. delay ∷ waits) (reconnect_loop-backoff answers (suc k) s' passing h))
        ]
      ]

  -- For an input that reports no failure as persistent: the waits between attempts are the first
  -- delay times the powers of the multiplier, in turn, each cut off at the maximum.
  pub reconnect_input-backoff :
      (answers : List Bool) (s : InputSide I)
      → ((input : I) → source.last_failure_persistent input ≡ false)
      → 1 ≤ source.reconnect_policy.multiplier
      → source.reconnect_policy.initial_delay ≤ source.reconnect_policy.max_delay
      → let (s', waits, connected) = reconnect_input source otherwise answers s in
        waits ≡ backoff source.reconnect_policy 0 (length waits)
  unfolding reconnect_input
  reconnect_input-backoff answers s passing h bounded =
      let policy = source.reconnect_policy in
      let first : min (policy.initial_delay * policy.multiplier ^ 0) policy.max_delay
          ≡ policy.initial_delay =
        grind (arith, bounded, power_zero policy.multiplier) in
      subst
        (λ (delay : ℕ).
          let (s', waits, connected) = reconnect_loop source otherwise answers delay s in
          waits ≡ backoff policy 0 (length waits))
        first (reconnect_loop-backoff answers 0 s passing h)
