-- ===== src/Hub/Feed/Announced.antt =====
-- What a round of the input thread of src/sp_rtk_base_relay/core/broadcast_hub.py puts on the event
-- bus.
use sp_rtk_base_relay.Prelude.{
  ℕ, zero, suc, ◌-◌, ◌≡◌, refl, sym, subst, inl, inr, String, Bool, Option, some, List, [], ◌∷◌,
  All, All-append, by_branches,
}
use sp_rtk_base_relay.Rtcm.{Bytes}
use sp_rtk_base_relay.Queue.Laws.{put_cases}
use sp_rtk_base_relay.Hub.{input_reconnected}
use sp_rtk_base_relay.Hub.Input.{InputSource}
use sp_rtk_base_relay.Hub.Broadcast.Announced.{IsMinor, IsWithin}
use sp_rtk_base_relay.Hub.Feed.{
  Feed, Reading, no_data, data_read, read_error, emit_all, attempt_events, reconnect_events,
  connect_again, after_read, input_round,
}

attempts-IsMinor : (made n : ℕ) → All IsMinor (attempt_events made n)
unfolding attempt_events
attempts-IsMinor made zero = tt
attempts-IsMinor made (suc n) = (tt, attempts-IsMinor (suc made) n)

reconnect-IsMinor :
    (kind : String) (before after : ℕ) (connected : Bool)
    → All IsMinor (reconnect_events kind before after connected)
unfolding reconnect_events
reconnect-IsMinor kind before after connected =
    by_branches (All IsMinor) connected
      (λ on.
        All-append IsMinor (attempt_events before (after - before))
          (input_reconnected kind after ∷ []) (attempts-IsMinor before (after - before)) (tt, tt))
      (λ off. attempts-IsMinor before (after - before))

module _ {R : Type 0} {I : Type 0} (source : InputSource I) where
  again-IsWithin :
      (otherwise : String) (answers : List Bool) (f : Feed R I)
      → IsWithin f.hub (connect_again source otherwise answers f).hub
  unfolding connect_again emit_all
  again-IsWithin otherwise answers f =
      by_branches (λ (f' : Feed R I). IsWithin f.hub f'.hub) (source.is_connected f.side.input)
        (λ on. (refl, λ minors. minors))
        (λ off. (
          refl,
          λ minors. All-append IsMinor f.hub.emitted _ minors (tt, reconnect-IsMinor _ _ _ _),
        ))

  read-hub :
      (otherwise : String) (reading : Reading) (f : Feed R I)
      → (after_read source otherwise reading f).0.hub ≡ f.hub
  unfolding after_read
  read-hub otherwise no_data f = refl
  read-hub otherwise (data_read bytes) f = elim (put_cases f.input_queue (some bytes)) [
    | inl (room, put) ↦ rw (put, after_read) refl
    | inr (full, refusal) ↦ rw (refusal, after_read) refl
  ]
  read-hub otherwise (read_error typed text) f = refl

  pub input_round-IsWithin :
      (read_data : I → Reading × I) (otherwise : String) (answers : List Bool) (f : Feed R I)
      → IsWithin f.hub (input_round source read_data otherwise answers f).0.hub
  unfolding input_round
  input_round-IsWithin read_data otherwise answers f =
      let f' = connect_again source otherwise answers f in
      let (reading, input') = read_data f'.side.input in
      let within = again-IsWithin otherwise answers f in
      by_branches (λ (x : Feed R I × Option Bytes). IsWithin f.hub x.0.hub) f.hub.running
        (λ running.
          by_branches (λ (x : Feed R I × Option Bytes). IsWithin f.hub x.0.hub)
            (source.is_connected f'.side.input)
            (λ on.
              subst (IsWithin f.hub)
                (sym (
                  read-hub otherwise reading
                    (record f' { side = record f'.side { input = input' } })))
                within)
            (λ off. within))
        (λ stopped. (refl, λ minors. minors))
