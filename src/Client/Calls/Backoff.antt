-- ===== src/Client/Calls/Backoff.antt =====
-- How the retry delay of an RTCMClient changes.
use sp_rtk_base_relay.Prelude.{
  ℕ, ◌+◌, ◌≡◌, refl, ◌∙◌, ap, inl, inr, Bool, false, List, [], ◌∷◌, length, arith,
}
use sp_rtk_base_relay.Client.{RtcmClient, Opening, connect, is_connected}
use sp_rtk_base_relay.Client.Calls.{IsLinked}
use sp_rtk_base_relay.Client.Calls.Connects.{connect_cases}
use sp_rtk_base_relay.Client.Calls.Keeps.{failed-IsLinked}

-- Connects at a time each, with the number of the socket, of which none gives a connection.
pub connect_all : List (ℕ × ℕ × Opening) → RtcmClient → RtcmClient
connect_all [] c = c
connect_all ((now, key, opening) ∷ attempts) c = connect_all attempts (connect now key opening c).0

unfoldable pub IsFailing : List (ℕ × ℕ × Opening) → RtcmClient → Type 0
IsFailing [] c = Unit
IsFailing ((now, key, opening) ∷ attempts) c =
    ((connect now key opening c).1 ≡ false) × IsFailing attempts (connect now key opening c).0

module _ (now key : ℕ) (opening : Opening) (c : RtcmClient) (linked : IsLinked c)
    (free : is_connected c ≡ false) where
  connect_failed :
      (connect now key opening c).1 ≡ false
      → let c' = (connect now key opening c).0 in
        IsLinked c'
        × (is_connected c' ≡ false)
        × (c'.current_retry_delay ≡ c.current_retry_delay)
        × (c'.stats.connection_attempts ≡ c.stats.connection_attempts + 1)
  connect_failed failed = elim (connect_cases now key c linked free opening) [
    | inl e ↦ rw e (failed-IsLinked c.stats.authentication_failures c linked free, refl, refl, refl)
    | inr (inl e) ↦
        rw e (failed-IsLinked (c.stats.authentication_failures + 1) c linked free, refl, refl, refl)
    | inr (inr e) ↦ absurd (ground (arith, failed, ap (λ (r : RtcmClient × Bool). r.1) e))
  ]

-- A client that is not connected keeps its retry delay through any number of attempts to connect
-- that fail, and stays unconnected, while every attempt is counted.
pub connect_all-delay :
    (attempts : List (ℕ × ℕ × Opening)) (c : RtcmClient)
    → IsLinked c
    → is_connected c ≡ false
    → IsFailing attempts c
    → let c' = connect_all attempts c in
      (c'.current_retry_delay ≡ c.current_retry_delay)
      × (is_connected c' ≡ false)
      × (c'.stats.connection_attempts ≡ c.stats.connection_attempts + length attempts)
unfolding connect_all IsFailing
connect_all-delay [] c linked free failing = (refl, free, omega arith)
connect_all-delay ((now, key, opening) ∷ attempts) c linked free failing =
    let (linked', free', same, counted) = connect_failed now key opening c linked free failing.0 in
    let (same', free'', counted') =
      connect_all-delay attempts (connect now key opening c).0 linked' free' failing.1 in
    (same' ∙ same, free'', omega (arith, counted, counted'))
