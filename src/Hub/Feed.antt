-- ===== src/Hub/Feed.antt =====
-- The two threads of the hub of src/sp_rtk_base_relay/core/broadcast_hub.py: _input_thread_worker,
-- which puts what it reads from the input source into the input queue, and _broadcast_loop, which
-- takes it out and hands it to the destinations. Each round of a thread is one step, between which
-- the other thread may come.
-- read_data() is given, as a function of the input's state; a put that waits finds the queue as it
-- is. A round that reconnects runs to its end: its events stand together.
mod Rounds
pub mod Announced
pub mod Runs
use sp_rtk_base_relay.Prelude.{
  ℕ, zero, suc, ◌+◌, ◌-◌, String, Bool, true, false, Option, none, some, List, [], ◌∷◌, ◌++◌,
  if◌then◌else◌,
}
use sp_rtk_base_relay.Rtcm.{Bytes}
use sp_rtk_base_relay.Queue.{Queue, new, put_nowait, get_nowait}
use sp_rtk_base_relay.Hub.{
  BroadcastHub, HubEvent, input_disconnected, input_reconnecting, input_reconnected, emit,
}
use sp_rtk_base_relay.Hub.Input.{InputSource, InputSide, record_input_failure, reconnect_input}
use sp_rtk_base_relay.Hub.Broadcast.{broadcast, check_no_data_watchdog}

-- What read_data() does: it returns None, or data, or raises an error, which has a reason if it is
-- an NtripConnectionError, and a text.
pub data Reading : Type 0 where
  no_data : Reading
  data_read : Bytes → Reading
  read_error : Option String → String → Reading

abbrev pub input_queue_size : ℕ
input_queue_size = 10

-- The hub with its input and its input queue, whose item `none` ends the broadcast thread.
pub record Feed (R : Type 0) (I : Type 0) : Type 0 where
  pub hub : BroadcastHub R
  pub side : InputSide I
  pub input_queue : Queue (Option Bytes)

module _ {R : Type 0} where
  pub emit_all : List HubEvent → BroadcastHub R → BroadcastHub R
  emit_all events h = record h { emitted = h.emitted ++ events }

-- The events of the attempts after the first `made`.
pub attempt_events : ℕ → ℕ → List HubEvent
attempt_events made zero = []
attempt_events made (suc n) = input_reconnecting (suc made) ∷ attempt_events (suc made) n

-- The events of _reconnect_input.
pub reconnect_events : String → ℕ → ℕ → Bool → List HubEvent
unfolding attempt_events
reconnect_events source_type before after connected =
    let attempts = attempt_events before (after - before) in
    if connected then attempts ++ input_reconnected source_type after ∷ [] else attempts

abbrev pub note_typed :
    {I : Type 0} → InputSource I → String → Option String → String → InputSide I → InputSide I
note_typed source otherwise none text s = s
note_typed source otherwise (some reason) text s =
    record_input_failure source otherwise (some reason) (some text) s

module _ {R : Type 0} {I : Type 0} (source : InputSource I) where
  -- `if not is_connected:`, to its end.
  pub connect_again : String → List Bool → Feed R I → Feed R I
  connect_again otherwise answers f =
      let (side', waits, connected) = reconnect_input source otherwise answers f.side in
      let events =
        reconnect_events source.source_type f.side.reconnect_attempts side'.reconnect_attempts
          connected in
      let again = record f {
        hub = emit_all (input_disconnected source.source_type ∷ events) f.hub;
        side = side';
      } in
      if source.is_connected f.side.input then f else again

  -- With the chunk that is put into the queue, if one is.
  pub after_read : String → Reading → Feed R I → Feed R I × Option Bytes
  after_read otherwise no_data f = (f, none)
  after_read otherwise (data_read bytes) f = elim (put_nowait f.input_queue (some bytes)) [
    | none ↦ (f, none)
    | some q ↦ (record f { input_queue = q }, some bytes)
  ]
  after_read otherwise (read_error typed text) f =
      let noted = note_typed source otherwise typed text f.side in
      (record f { side = record noted { input = source.disconnect noted.input } }, none)

  -- A round of _input_thread_worker.
  pub input_round : (I → Reading × I) → String → List Bool → Feed R I → Feed R I × Option Bytes
  input_round read_data otherwise answers f =
      let f' = connect_again otherwise answers f in
      let (reading, input') = read_data f'.side.input in
      let read =
        after_read otherwise reading (record f' { side = record f'.side { input = input' } }) in
      if f.hub.running
      then if source.is_connected f'.side.input then read else (f', none)
      else (f, none)

-- A round of _broadcast_loop, with the chunk that it hands out, if it takes one. One that finds the
-- queue empty for a second looks at the watchdog.
pub broadcast_round : {R : Type 0} {I : Type 0} → ℕ → Feed R I → Feed R I × Option Bytes
broadcast_round {R} {I} now f =
    let taken = elim (get_nowait f.input_queue) as (λ x. Feed R I × Option Bytes) [
      | none ↦ (record f { hub = check_no_data_watchdog now f.hub }, none)
      | some (none, q) ↦ (record f { input_queue = q }, none)
      | some (some bytes, q) ↦
          (record f { input_queue = q; hub = broadcast now bytes f.hub }, some bytes)
    ] in
    if f.hub.running then taken else (f, none)
