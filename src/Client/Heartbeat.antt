-- ===== src/Client/Heartbeat.antt =====
-- HeartbeatMonitor of src/sp_rtk_base_relay/core/rtcm_client.py. A socket is the number of the
-- connection it belongs to. Times are the numbers that time.time() returned; 0 is "no heartbeat".
-- What a round of the thread meets at recv() is a `Read`.
pub mod Scan
pub mod Timeouts
mod Tests
use sp_rtk_base_relay.Prelude.{
  ℕ, zero, suc, ◌-◌, Bool, true, false, not, ◌&&◌, Option, none, some, List, [], ◌∷◌, ◌++◌, length,
  drop, ltb, ◌==◌, ◌||◌, is_some, if◌then◌else◌,
}
use sp_rtk_base_relay.Rtcm.{Bytes}

pub record HeartbeatMonitor : Type 0 where
  pub timeout_seconds : ℕ
  pub last_heartbeat : ℕ
  pub running : Bool
  pub socket : Option ℕ

abbrev pub new_monitor : ℕ → HeartbeatMonitor
new_monitor timeout_seconds = record {
  timeout_seconds = timeout_seconds;
  last_heartbeat = 0;
  running = false;
  socket = none;
}

unfoldable pub start_monitor : ℕ → HeartbeatMonitor → HeartbeatMonitor
start_monitor socket m = if m.running then m else record m { socket = some socket; running = true }

abbrev pub stop_monitor : HeartbeatMonitor → HeartbeatMonitor
stop_monitor m = record m { running = false; socket = none }

abbrev pub update_heartbeat : ℕ → HeartbeatMonitor → HeartbeatMonitor
update_heartbeat now m = record m { last_heartbeat = now }

pub time_since_heartbeat : ℕ → HeartbeatMonitor → ℕ
time_since_heartbeat now m = if m.last_heartbeat == 0 then 0 else now - m.last_heartbeat

pub is_timeout : ℕ → HeartbeatMonitor → Bool
unfolding time_since_heartbeat
is_timeout now m = ltb m.timeout_seconds (time_since_heartbeat now m)

-- $HB$
abbrev pub heartbeat : Bytes
heartbeat = 36 ∷ 72 ∷ 66 ∷ 36 ∷ []

pub starts_with : Bytes → Bytes → Bool
starts_with [] bytes = true
starts_with (p ∷ prefix) [] = false
starts_with (p ∷ prefix) (b ∷ bytes) = (p == b) && starts_with prefix bytes

-- buffer[buffer.find(b"$HB$") + 4 :], if there is one.
pub after_heartbeat : Bytes → Option Bytes
after_heartbeat [] = none
after_heartbeat (b ∷ bytes) =
    let later = after_heartbeat bytes in
    if starts_with heartbeat (b ∷ bytes) then some (drop 4 (b ∷ bytes)) else later

pub scan_loop : ℕ → ℕ → Bytes → HeartbeatMonitor → Bytes × HeartbeatMonitor
scan_loop zero now buffer m = (buffer, m)
scan_loop (suc fuel) now buffer m = elim (after_heartbeat buffer) [
  | none ↦ (buffer, m)
  | some rest ↦ scan_loop fuel now rest (update_heartbeat now m)
]

pub scan_heartbeats : ℕ → Bytes → HeartbeatMonitor → Bytes × HeartbeatMonitor
scan_heartbeats now buffer m = scan_loop (length buffer) now buffer m

pub data Read : Type 0 where
  received : Bytes → Read
  no_data : Read
  failed : Read

-- How a round ends: the thread goes on, it ends, or it ends after calling the timeout callback.
pub data RoundEnd : Type 0 where
  again : RoundEnd
  quiet : RoundEnd
  lost : RoundEnd

unfoldable pub check_timeout : ℕ → HeartbeatMonitor → RoundEnd
unfolding is_timeout
check_timeout now m = if is_timeout now m && ltb 0 m.last_heartbeat then lost else again

pub handle_read : ℕ → Read → Bytes → HeartbeatMonitor → Bytes × HeartbeatMonitor × RoundEnd
handle_read now (received []) buffer m = (buffer, m, lost)
handle_read now (received (b ∷ more)) buffer m =
    let (buffer', m') = scan_heartbeats now (buffer ++ b ∷ more) m in
    (buffer', m', check_timeout now m')
handle_read now no_data buffer m = (buffer, m, check_timeout now m)
handle_read now failed buffer m = (buffer, m, lost)

pub monitor_round : ℕ → Read → Bytes → HeartbeatMonitor → Bytes × HeartbeatMonitor × RoundEnd
monitor_round now read buffer m =
    let handled = handle_read now read buffer m in
    if not m.running || not (is_some m.socket) then (buffer, m, quiet) else handled

-- The rounds of the thread, as long as they go on; the reads are given with their times.
pub monitor_loop : List (ℕ × Read) → Bytes → HeartbeatMonitor → Bytes × HeartbeatMonitor × RoundEnd
monitor_loop [] buffer m = (buffer, m, again)
monitor_loop ((now, read) ∷ reads) buffer m =
    let (buffer', m', end) = monitor_round now read buffer m in
    let rest = monitor_loop reads buffer' m' in
    elim end [ again ↦ rest | quiet ↦ (buffer', m', quiet) | lost ↦ (buffer', m', lost) ]
