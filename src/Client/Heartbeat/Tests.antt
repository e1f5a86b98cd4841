-- ===== src/Client/Heartbeat/Tests.antt =====
-- Examples of the heartbeat monitor of src/sp_rtk_base_relay/core/rtcm_client.py.
use sp_rtk_base_relay.Prelude.{ℕ, ◌≡◌, refl, inl, inr, true, none, some, List, [], ◌∷◌, ◌++◌, arith}
use sp_rtk_base_relay.Rtcm.{Bytes}
use sp_rtk_base_relay.Client.Heartbeat.{
  HeartbeatMonitor, Read, received, no_data, lost, after_heartbeat, starts_with, scan_heartbeats,
  scan_loop, monitor_loop,
}
use sp_rtk_base_relay.Client.Heartbeat.Scan.{scan_heartbeats-append}
use sp_rtk_base_relay.Client.Heartbeat.Timeouts.{IsWatching, IsSilent, IsLate, monitor_loop-detects}

abbrev watching_monitor : HeartbeatMonitor
watching_monitor = record {
  timeout_seconds = 30;
  last_heartbeat = 100;
  running = true;
  socket = some 1;
}

-- x$H
abbrev first_part : Bytes
first_part = 120 ∷ 36 ∷ 72 ∷ []

-- B$$
abbrev second_part : Bytes
second_part = 66 ∷ 36 ∷ 36 ∷ []

scan_heartbeats-append_example :
    let (left, m) = scan_heartbeats 120 first_part watching_monitor in
    (scan_heartbeats 120 (first_part ++ second_part) watching_monitor
      ≡ scan_heartbeats 120 (left ++ second_part) m)
    × (after_heartbeat left ≡ none)
scan_heartbeats-append_example = scan_heartbeats-append 120 first_part second_part watching_monitor

scan_seen :
    scan_heartbeats 120 (first_part ++ second_part) watching_monitor
    ≡ (36 ∷ [], record watching_monitor { last_heartbeat = 120 })
unfolding scan_heartbeats scan_loop after_heartbeat starts_with
scan_seen = refl

watching_monitor-IsWatching : IsWatching 100 watching_monitor
watching_monitor-IsWatching = record {
  running = refl;
  has_socket = refl;
  last_seen = refl;
  seen = ground arith;
}

abbrev quiet_reads : List (ℕ × Read)
quiet_reads = (110, received (36 ∷ 72 ∷ [])) ∷ (125, no_data) ∷ (131, no_data) ∷ []

quiet_reads-IsSilent : IsSilent quiet_reads []
unfolding IsSilent after_heartbeat starts_with
quiet_reads-IsSilent = (refl, tt)

quiet_reads-IsLate : IsLate 130 quiet_reads
unfolding IsLate
quiet_reads-IsLate = inr (inr (inl (ground arith)))

monitor_loop-detects_example : (monitor_loop quiet_reads [] watching_monitor).2 ≡ lost
monitor_loop-detects_example =
    monitor_loop-detects 100 watching_monitor watching_monitor-IsWatching quiet_reads []
      quiet_reads-IsSilent quiet_reads-IsLate
