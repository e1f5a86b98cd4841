-- ===== src/Engine/Naming.antt =====
-- Which destinations the engine of src/sp_rtk_base_relay/engine.py names after start() and stop().
use sp_rtk_base_relay.Prelude.{
  ◌≡◌, refl, ◌∙◌, ap, ap₂, true, false, none, some, List, [], ◌∷◌, ℕ, String, map, length,
  by_branches, arith,
}
use sp_rtk_base_relay.Config.Destinations.{DestinationConfig}
use sp_rtk_base_relay.Destination.{Destination}
use sp_rtk_base_relay.Factory.{Builders, Outcome, done, raises, create}
use sp_rtk_base_relay.Factory.Creation.{
  KeepsNames, create-name, also_created_done, also_created_some,
}
use sp_rtk_base_relay.InputFactory.{InputFactory, Made, made, failed, create_input_source}
use sp_rtk_base_relay.Hub
use sp_rtk_base_relay.Hub.{BroadcastHub, new_hub}
use sp_rtk_base_relay.Hub.Input.{InputSource, InputSide}
use sp_rtk_base_relay.Hub.Lifecycle.{Started, was_running, connection_failed, started}
use sp_rtk_base_relay.Hub.Lifecycle.Announced.{IsBegun, start-IsBegun, new_hub_idle}
use sp_rtk_base_relay.Engine.{
  RelayEngine, Raised, service_error, configuration_error, key_error, assertion_error,
  connection_error, from_factory, from_input_factory, new_side, put_hub, emit, create_each,
  after_start, start_hub, create_and_start, start, get_destination_names,
}

-- A started engine names the configured destinations; so does one whose input did not connect; any
-- other error leaves the names as they were.
abbrev pub IsNamed :
    {C : Type 0} {R : Type 0} {I : Type 0}
    → List DestinationConfig
    → RelayEngine C R I
    → RelayEngine C R I
    → Raised
    → Type 0
IsNamed configs e e' none =
    (e'.running ≡ true)
    × (get_destination_names e' ≡ map (λ (c : DestinationConfig). c.name) configs)
IsNamed configs e e' (some connection_error) =
    (e'.running ≡ false)
    × (get_destination_names e' ≡ map (λ (c : DestinationConfig). c.name) configs)
IsNamed configs e e' (some (service_error text)) = ⊥
IsNamed configs e e' (some (configuration_error text)) = ⊥
IsNamed configs e e' (some (key_error text)) = ⊥
IsNamed configs e e' (some assertion_error) = ⊥
IsNamed configs e e' (some (from_factory error)) =
    (e'.running ≡ false) × (get_destination_names e' ≡ get_destination_names e)
IsNamed configs e e' (some (from_input_factory error)) =
    (e'.running ≡ false) × (get_destination_names e' ≡ get_destination_names e)

created_names :
    {R : Type 0} (builders : Builders R)
    → KeepsNames builders
    → (configs : List DestinationConfig) (ds : List (Destination R))
    → create_each builders configs ≡ done ds
    → map (λ (d : Destination R). d.name) ds ≡ map (λ (c : DestinationConfig). c.name) configs
unfolding create_each
created_names builders keeps [] [] h = refl
created_names builders keeps [] (d ∷ ds) h = absurd (cc h)
created_names builders keeps (c ∷ configs) [] h =
    absurd (also_created_some builders (create builders c) (create_each builders configs) h)
created_names builders keeps (c ∷ configs) (d ∷ ds) h =
    let (now, later) =
      also_created_done builders (create builders c) (create_each builders configs) d ds h in
    ap₂ (λ (n : String) (ns : List String). n ∷ ns) (create-name builders keeps c d now)
      (created_names builders keeps configs ds later)

begun-IsNamed :
    {C : Type 0} {R : Type 0} {I : Type 0} (configs : List DestinationConfig)
    (source : InputSource I) (e₀ e : RelayEngine C R I) (count : ℕ) (h h' : BroadcastHub R)
    (s : InputSide I) (how : Started)
    → e.running ≡ false
    → Hub.get_destination_names h ≡ map (λ (c : DestinationConfig). c.name) configs
    → IsBegun source h h' how
    → let (e', raised) = after_start count how (put_hub h' s e) in IsNamed configs e₀ e' raised
unfolding after_start emit put_hub get_destination_names Hub.get_destination_names
begun-IsNamed configs source e₀ e count h h' s started off named (up, announced, same) =
    (refl, same ∙ named)
begun-IsNamed configs source e₀ e count h h' s connection_failed off named same =
    (off, ap Hub.get_destination_names same ∙ named)
begun-IsNamed configs source e₀ e count h h' s was_running off named begun = absurd begun

module _ {C : Type 0} {S : Type 0} {R : Type 0} {I : Type 0} (builders : Builders R)
    (keeps : KeepsNames builders) where
  -- start() of a stopped engine, when every registered builder gives the configured name: if it
  -- returns, the engine runs and names the configured destinations in order; if the input does not
  -- connect, it names them as well, though it does not run; if an input or a destination cannot be
  -- created, it does not run and names what it named before; and it raises no other error.
  pub start-IsNamed :
      (source : InputSource I) (otherwise : String) (now : ℕ) (inputs : InputFactory C S I)
      (configs : List DestinationConfig) (e : RelayEngine C R I)
      → e.running ≡ false
      → let (e', raised) = start source otherwise now inputs builders configs e in
        IsNamed configs e e' raised
  unfolding start create_and_start start_hub get_destination_names
  start-IsNamed source otherwise now inputs configs e off =
      by_branches (λ (r : RelayEngine C R I × Raised). IsNamed configs e r.0 r.1) e.running
        (λ on. absurd (ground (arith, on, off)))
        (λ _.
          created (create_input_source inputs e.source e.config) (create_each builders configs)
            (created_names builders keeps configs))
    where
      created :
          (input : Made I) (dests : Outcome (List (Destination R)))
          → ((ds : List (Destination R))
              → dests ≡ done ds
              → map (λ (d : Destination R). d.name) ds
                ≡ map (λ (c : DestinationConfig). c.name) configs)
          → let (e', raised) = create_and_start source otherwise now input dests e in
            IsNamed configs e e' raised
      created (failed error) dests named = (off, refl)
      created (made input) (raises error) named = (off, refl)
      created (made input) (done dests) named =
          let (down, clear, same) = new_hub_idle dests in
          begun-IsNamed configs source e (record e { has_input_source = true }) (length dests)
            (new_hub dests) _ _ _ off (same ∙ named dests refl)
            (start-IsBegun source otherwise now (new_hub dests) (new_side input) down)
