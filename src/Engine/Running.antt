-- ===== src/Engine/Running.antt =====
-- Whether the engine of src/sp_rtk_base_relay/engine.py runs, and what it and its hub announce.
use sp_rtk_base_relay.Prelude.{
  ◌≡◌, refl, subst, sym, ap, inl, inr, Bool, true, false, Option, none, some, List, [], ◌∷◌, ◌++◌,
  ℕ, String, map, All, Option-cases, by_branches, arith,
}
use sp_rtk_base_relay.Hub.{BroadcastHub, HubEvent, input_connected, hub_started, hub_stopped}
use sp_rtk_base_relay.Hub.Broadcast.Announced.{IsMinor, IsWithin}
use sp_rtk_base_relay.Hub.Input.{InputSide}
use sp_rtk_base_relay.Engine.{
  EngineEvent, hub_event, engine_started, engine_stopped, RelayEngine, Raised, put_hub, with_hub,
}

-- How far a run is, as its events tell.
pub data Phase : Type 0 where
  idle : Phase
  connected : Phase
  launched : Phase
  relaying : Phase
  halted : Phase

-- The order of the events of runs.
pub data Step : Phase → EngineEvent → Phase → Type 0 where
  connect : (kind : String) → Step idle (hub_event (input_connected kind)) connected
  launch : (names : List String) → Step connected (hub_event (hub_started names)) launched
  begin : (count : ℕ) (source : String) → Step launched (engine_started count source) relaying
  report : (event : HubEvent) → IsMinor event → Step relaying (hub_event event) relaying
  halt : Step relaying (hub_event hub_stopped) halted
  finish : Step halted engine_stopped idle

pub data IsFollowed : Phase → List EngineEvent → Phase → Type 0 where
  stay : (p : Phase) → IsFollowed p [] p
  move :
      (p : Phase) (event : EngineEvent) (q : Phase) (events : List EngineEvent) (r : Phase)
      → Step p event q
      → IsFollowed q events r
      → IsFollowed p (event ∷ events) r

pub one :
    {p : Phase} {event : EngineEvent} {q : Phase} → Step p event q → IsFollowed p (event ∷ []) q
one {p} {event} {q} step = move p event q [] q step (stay q)

pub then-IsFollowed :
    {p : Phase} {events : List EngineEvent} {q : Phase} {more : List EngineEvent} {r : Phase}
    → IsFollowed p events q
    → IsFollowed q more r
    → IsFollowed p (events ++ more) r
then-IsFollowed (stay p) later = later
then-IsFollowed {more} {r} (move p event q events r' step rest) later =
    move p event q (events ++ more) r step (then-IsFollowed rest later)

minor-IsFollowed :
    (events : List HubEvent)
    → All IsMinor events
    → IsFollowed relaying (map hub_event events) relaying
minor-IsFollowed [] minors = stay relaying
minor-IsFollowed (event ∷ events) minors =
    move relaying (hub_event event) relaying (map hub_event events) relaying (report event minors.0)
      (minor-IsFollowed events minors.1)

abbrev pub phase_of : Bool → Phase
phase_of true = relaying
phase_of false = idle

-- A hub whose events are on the bus.
abbrev pub HasHub : {R : Type 0} {I : Type 0} → Option (BroadcastHub R × InputSide I) → Type 0
HasHub none = ⊥
HasHub (some (h, s)) = (h.running ≡ true) × (h.emitted ≡ [])

abbrev pub HasNoRun : {R : Type 0} {I : Type 0} → Option (BroadcastHub R × InputSide I) → Type 0
HasNoRun none = Unit
HasNoRun (some (h, s)) = h.running ≡ false

-- A running engine has an input source and a running hub; a stopped one has no running hub; and the
-- events on the bus are those of complete runs, and of one that is relaying if the engine runs.
pub record IsSteady {C : Type 0} {R : Type 0} {I : Type 0} (e : RelayEngine C R I) : Type 0 where
  pub followed : IsFollowed idle e.emitted (phase_of e.running)
  pub has_hub : e.running ≡ true → HasHub e.hub
  pub has_source : e.running ≡ true → e.has_input_source ≡ true
  pub no_run : e.running ≡ false → HasNoRun e.hub

module _ {C : Type 0} {R : Type 0} {I : Type 0} (e : RelayEngine C R I) (v : IsSteady e) where
  pub put-IsSteady :
      (h h' : BroadcastHub R) (s : InputSide I)
      → e.running ≡ true
      → h.running ≡ true
      → h.emitted ≡ []
      → IsWithin h h'
      → IsSteady (put_hub h' s e)
  unfolding put_hub
  put-IsSteady h h' s on up clear within = record {
    followed = subst (IsFollowed idle _) (sym (ap phase_of on)) (
        then-IsFollowed (subst (IsFollowed idle e.emitted) (ap phase_of on) v.followed)
          (minor-IsFollowed h'.emitted (within.1 (subst (All IsMinor) (sym clear) tt))));
    has_hub = λ _. (cc (within.0, up), refl);
    has_source = v.has_source;
    no_run = λ off. absurd (ground (arith, on, off));
  }

  pub with_hub-IsSteady :
      (body : BroadcastHub R × InputSide I → RelayEngine C R I × Raised)
      → ((h : BroadcastHub R) (s : InputSide I)
          → e.running ≡ true
          → h.running ≡ true
          → h.emitted ≡ []
          → IsSteady (body (h, s)).0)
      → IsSteady (with_hub body e).0
  unfolding with_hub
  with_hub-IsSteady body steady =
      by_branches (λ (r : RelayEngine C R I × Raised). IsSteady r.0) e.running
        (λ on. elim (Option-cases e.hub) [
          | inl missing ↦ absurd (subst HasHub missing (v.has_hub on))
          | inr ((h, s), found) ↦
              let (up, clear) = subst HasHub found (v.has_hub on) in
              rw found (steady h s on up clear)
        ])
        (λ off. v)
