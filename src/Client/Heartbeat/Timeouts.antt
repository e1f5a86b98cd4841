-- ===== src/Client/Heartbeat/Timeouts.antt =====
-- When HeartbeatMonitor reports that the connection is lost.
use sp_rtk_base_relay.Prelude.{
  ℕ, ◌+◌, ◌<◌, ◌≡◌, refl, ◌∙◌, ◌⊎◌, inl, inr, true, none, List, [], ◌∷◌, ◌++◌, length, arith,
  Bool-cases, ltb, ◌&&◌, is_some,
}
use sp_rtk_base_relay.Rtcm.{Bytes}
use sp_rtk_base_relay.Client.Heartbeat.{
  HeartbeatMonitor, Read, received, no_data, failed, again, lost, is_timeout, time_since_heartbeat,
  check_timeout, handle_read, monitor_round, monitor_loop, after_heartbeat, scan_heartbeats,
}
use sp_rtk_base_relay.Client.Heartbeat.Scan.{scan_loop_stop}

-- No heartbeat is completed by the reads, as long as the connection gives data.
unfoldable pub IsSilent : List (ℕ × Read) → Bytes → Type 0
IsSilent [] buffer = Unit
IsSilent ((now, received []) ∷ reads) buffer = Unit
IsSilent ((now, received (b ∷ more)) ∷ reads) buffer =
    (after_heartbeat (buffer ++ b ∷ more) ≡ none) × IsSilent reads (buffer ++ b ∷ more)
IsSilent ((now, no_data) ∷ reads) buffer = IsSilent reads buffer
IsSilent ((now, failed) ∷ reads) buffer = Unit

-- One of the reads is later than the time.
unfoldable pub IsLate : ℕ → List (ℕ × Read) → Type 0
IsLate time [] = ⊥
IsLate time ((now, read) ∷ reads) = (time < now) ⊎ IsLate time reads

-- Monitors that run, with a heartbeat at `last`.
pub record IsWatching (last : ℕ) (m : HeartbeatMonitor) : Type 0 where
  pub running : m.running ≡ true
  pub has_socket : is_some m.socket ≡ true
  pub last_seen : m.last_heartbeat ≡ last
  pub seen : 0 < last

module _ (last : ℕ) (m : HeartbeatMonitor) (watching : IsWatching last m) where
  round_lem :
      (now : ℕ) (read : Read) (buffer : Bytes)
      → monitor_round now read buffer m ≡ handle_read now read buffer m
  unfolding monitor_round
  round_lem now read buffer = ground (arith, watching.running, watching.has_socket)

  check_late : (now : ℕ) → last + m.timeout_seconds < now → check_timeout now m ≡ lost
  unfolding check_timeout is_timeout time_since_heartbeat
  check_late now late = ground (arith, watching.last_seen, watching.seen, late)

  check_cases : (now : ℕ) → (check_timeout now m ≡ lost) ⊎ (check_timeout now m ≡ again)
  unfolding check_timeout
  check_cases now = elim (Bool-cases (is_timeout now m && ltb 0 m.last_heartbeat)) [
    | inl late ↦ rw late (inl refl)
    | inr in_time ↦ rw in_time (inr refl)
  ]

  silent_read :
      (now b : ℕ) (more buffer : Bytes)
      → after_heartbeat (buffer ++ b ∷ more) ≡ none
      → handle_read now (received (b ∷ more)) buffer m
        ≡ (buffer ++ b ∷ more, m, check_timeout now m)
  unfolding handle_read scan_heartbeats
  silent_read now b more buffer none_found =
      rw (scan_loop_stop (length (buffer ++ b ∷ more)) now (buffer ++ b ∷ more) m none_found) refl

  -- A round that leaves the monitor as it is, checks the time, and goes on if it is in time.
  checked_round :
      (now : ℕ) (read : Read) (reads : List (ℕ × Read)) (buffer buffer' : Bytes)
      → monitor_round now read buffer m ≡ (buffer', m, check_timeout now m)
      → ((last + m.timeout_seconds < now) ⊎ ((monitor_loop reads buffer' m).2 ≡ lost))
      → (monitor_loop ((now, read) ∷ reads) buffer m).2 ≡ lost
  unfolding monitor_loop
  checked_round now read reads buffer buffer' e (inl late) =
      rw (e, monitor_loop, check_late now late) refl
  checked_round now read reads buffer buffer' e (inr later) = elim (check_cases now) [
    | inl reported ↦ rw (e, monitor_loop, reported) refl
    | inr in_time ↦ rw (e, monitor_loop, in_time, e) later
  ]

  lost_round :
      (now : ℕ) (read : Read) (reads : List (ℕ × Read)) (buffer : Bytes)
      → monitor_round now read buffer m ≡ (buffer, m, lost)
      → (monitor_loop ((now, read) ∷ reads) buffer m).2 ≡ lost
  unfolding monitor_loop
  lost_round now read reads buffer e = rw (e, monitor_loop) refl

  -- While no heartbeat comes, a monitor that runs, and has had one, reports the connection as lost
  -- by the first read that is later than the timeout after the last heartbeat, if not before because
  -- the connection has ended.
  pub monitor_loop-detects :
      (reads : List (ℕ × Read)) (buffer : Bytes)
      → IsSilent reads buffer
      → IsLate (last + m.timeout_seconds) reads
      → (monitor_loop reads buffer m).2 ≡ lost
  unfolding IsSilent IsLate handle_read
  monitor_loop-detects [] buffer silent late = absurd late
  monitor_loop-detects ((now, received []) ∷ reads) buffer silent late =
      lost_round now (received []) reads buffer (round_lem now (received []) buffer)
  monitor_loop-detects ((now, failed) ∷ reads) buffer silent late =
      lost_round now failed reads buffer (round_lem now failed buffer)
  monitor_loop-detects ((now, no_data) ∷ reads) buffer silent (inl late) =
      checked_round now no_data reads buffer buffer (round_lem now no_data buffer) (inl late)
  monitor_loop-detects ((now, no_data) ∷ reads) buffer silent (inr later) =
      checked_round now no_data reads buffer buffer (round_lem now no_data buffer)
        (inr (monitor_loop-detects reads buffer silent later))
  monitor_loop-detects ((now, received (b ∷ more)) ∷ reads) buffer silent (inl late) =
      checked_round now (received (b ∷ more)) reads buffer (buffer ++ b ∷ more)
        (round_lem now (received (b ∷ more)) buffer ∙ silent_read now b more buffer silent.0)
        (inl late)
  monitor_loop-detects ((now, received (b ∷ more)) ∷ reads) buffer silent (inr later) =
      checked_round now (received (b ∷ more)) reads buffer (buffer ++ b ∷ more)
        (round_lem now (received (b ∷ more)) buffer ∙ silent_read now b more buffer silent.0)
        (inr (monitor_loop-detects reads (buffer ++ b ∷ more) silent.1 later))
