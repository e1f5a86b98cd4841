-- ===== src/Engine/Starts.antt =====
-- start() and stop() of the engine of src/sp_rtk_base_relay/engine.py keep it steady.
use sp_rtk_base_relay.Prelude.{
  ◌≡◌, refl, ◌∙◌, subst, sym, ap, inl, inr, true, false, List, [], ◌∷◌, ◌++◌, ℕ, String, map,
  length, Option-cases, by_branches, arith,
}
use sp_rtk_base_relay.Config.Destinations.{DestinationConfig}
use sp_rtk_base_relay.Destination.{Destination, Remote}
use sp_rtk_base_relay.Factory.{Builders, Outcome, done, raises}
use sp_rtk_base_relay.InputFactory.{InputFactory, Made, made, failed, create_input_source}
use sp_rtk_base_relay.Hub
use sp_rtk_base_relay.Hub.{BroadcastHub, new_hub, input_connected, hub_started, hub_stopped}
use sp_rtk_base_relay.Hub.Input.{InputSource, InputSide}
use sp_rtk_base_relay.Hub.Lifecycle.{Started, was_running, connection_failed, started}
use sp_rtk_base_relay.Hub.Lifecycle
use sp_rtk_base_relay.Hub.Lifecycle.Announced.{IsBegun, start-IsBegun, stop-emitted, new_hub_idle}
use sp_rtk_base_relay.Engine.{
  RelayEngine, Raised, hub_event, new_side, put_hub, emit, create_each, after_start, start_hub,
  create_and_start, start, stop, stop_hub,
}
use sp_rtk_base_relay.Engine.Running.{
  idle, launched, relaying, halted, connect, launch, begin, halt, finish, IsFollowed, stay, one,
  then-IsFollowed, phase_of, HasHub, IsSteady,
}

module _ {C : Type 0} {R : Type 0} {I : Type 0} (source : InputSource I) (e : RelayEngine C R I)
    (v : IsSteady e) where
  pub stop-IsSteady :
      (ops : Remote R) (joined : Destination R → Destination R)
      → IsSteady (stop ops joined source e)
  unfolding stop emit put_hub
  stop-IsSteady ops joined =
      by_branches IsSteady e.running
        (λ on. elim (Option-cases e.hub) [
          | inl missing ↦ absurd (subst HasHub missing (v.has_hub on))
          | inr ((h, s), found) ↦
              let (up, clear) = subst HasHub found (v.has_hub on) in
              let stopped : (Lifecycle.stop source ops joined h s).0.emitted ≡ hub_stopped ∷ [] =
                stop-emitted source ops joined h s up ∙ ap (λ es. es ++ hub_stopped ∷ []) clear in
              rw (found, stop_hub)
                record {
                  followed =
                      then-IsFollowed
                        (then-IsFollowed
                          (subst (IsFollowed idle e.emitted) (ap phase_of on) v.followed)
                          (subst (λ es. IsFollowed relaying (map hub_event es) halted) (sym stopped)
                            (one halt)))
                        (one finish);
                  has_hub = λ off. cc off;
                  has_source = λ off. cc off;
                  no_run = λ off. tt;
                }
        ])
        (λ off. v)

  with_source-IsSteady : e.running ≡ false → IsSteady (record e { has_input_source = true })
  with_source-IsSteady off = record {
    followed = v.followed;
    has_hub = v.has_hub;
    has_source = λ on. refl;
    no_run = v.no_run;
  }

  begun-IsSteady :
      (count : ℕ) (h h' : BroadcastHub R) (s : InputSide I) (how : Started)
      → e.running ≡ false
      → e.has_input_source ≡ true
      → h.running ≡ false
      → h.emitted ≡ []
      → IsBegun source h h' how
      → IsSteady (after_start count how (put_hub h' s e)).0
  unfolding after_start emit put_hub
  begun-IsSteady count h h' s started off given down clear (up, announced, named) =
      let names = Hub.get_destination_names h in
      let opening = input_connected source.source_type ∷ hub_started names ∷ [] in
      let events = announced ∙ ap (λ es. es ++ opening) clear in
      record {
        followed =
            then-IsFollowed
              (then-IsFollowed (subst (IsFollowed idle e.emitted) (ap phase_of off) v.followed) (
                subst (λ es. IsFollowed idle (map hub_event es) launched) (sym events)
                  (then-IsFollowed (one (connect source.source_type)) (one (launch names)))))
              (one (begin count e.source));
        has_hub = λ on. (up, refl);
        has_source = λ on. given;
        no_run = λ idle_again. cc idle_again;
      }
  begun-IsSteady count h h' s connection_failed off given down clear same = record {
    followed = subst (IsFollowed idle _) (sym (ap phase_of off)) (
        then-IsFollowed (subst (IsFollowed idle e.emitted) (ap phase_of off) v.followed) (
          subst (λ es. IsFollowed idle (map hub_event es) idle)
            (sym (ap (λ (k : BroadcastHub R). k.emitted) same ∙ clear)) (stay idle)));
    has_hub = λ on. absurd (ground (arith, on, off));
    has_source = v.has_source;
    no_run = λ still. ap (λ (k : BroadcastHub R). k.running) same ∙ down;
  }
  begun-IsSteady count h h' s was_running off given down clear begun = absurd begun

module _ {C : Type 0} {S : Type 0} {R : Type 0} {I : Type 0} (source : InputSource I)
    (inputs : InputFactory C S I) (builders : Builders R) where
  pub start-IsSteady :
      (otherwise : String) (now : ℕ) (configs : List DestinationConfig) (e : RelayEngine C R I)
      → IsSteady e
      → IsSteady (start source otherwise now inputs builders configs e).0
  unfolding start create_and_start start_hub
  start-IsSteady otherwise now configs e v =
      by_branches (λ (r : RelayEngine C R I × Raised). IsSteady r.0) e.running (λ on. v)
        (λ off.
          created off (create_input_source inputs e.source e.config) (create_each builders configs))
    where
      created :
          e.running ≡ false
          → (input : Made I) (dests : Outcome (List (Destination R)))
          → IsSteady (create_and_start source otherwise now input dests e).0
      created off (failed error) dests = v
      created off (made input) (raises error) = with_source-IsSteady source e v off
      created off (made input) (done dests) =
          let (down, clear, named) = new_hub_idle dests in
          begun-IsSteady source (record e { has_input_source = true })
            (with_source-IsSteady source e v off) (length dests) (new_hub dests) _ _ _ off refl down
            clear (start-IsBegun source otherwise now (new_hub dests) (new_side input) down)
