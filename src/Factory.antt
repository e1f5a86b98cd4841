-- ===== src/Factory.antt =====
-- src/sp_rtk_base_relay/core/destinations/destination_factory.py: the registry of builders, and how
-- destinations are created from their configuration. A builder is given: what the modules of the
-- kinds of destinations register. The texts of the errors leave out names and types.
pub mod Creation
mod Tests
use sp_rtk_base_relay.Prelude.{
  String, Bool, true, false, not, ◌&&◌, Option, none, some, List, [], ◌∷◌, map, is_some,
  if◌then◌else◌,
}
use sp_rtk_base_relay.Prelude.Text.{same_text}
use sp_rtk_base_relay.Destination.{Destination}
use sp_rtk_base_relay.Config.Destinations.{DestinationConfig}

-- The exceptions that the factory tells apart.
pub data FactoryError : Type 0 where
  configuration_error : String → FactoryError
  destination_error : String → FactoryError
  other_error : String → FactoryError

pub data Outcome (A : Type 0) : Type 0 where
  done : A → Outcome A
  raises : FactoryError → Outcome A

abbrev pub Builder : Type 0 → Type 0
Builder R = DestinationConfig → Outcome (Destination R)

abbrev pub Builders : Type 0 → Type 0
Builders R = List (String × Builder R)

module _ {R : Type 0} where
  unfoldable pub put_builder : String → Builder R → Builders R → Builders R
  unfolding same_text
  put_builder kind builder [] = (kind, builder) ∷ []
  put_builder kind builder ((k, b) ∷ builders) =
      let rest = put_builder kind builder builders in
      if same_text k kind then (k, builder) ∷ builders else (k, b) ∷ rest

  unfoldable pub get_builder : String → Builders R → Option (Builder R)
  unfolding same_text
  get_builder kind [] = none
  get_builder kind ((k, b) ∷ builders) =
      let rest = get_builder kind builders in if same_text k kind then some b else rest

  unfoldable pub register : String → Builder R → Builders R → Outcome (Builders R)
  unfolding put_builder same_text
  register kind builder builders =
      if same_text kind ""
      then raises (other_error "dest_type must not be empty")
      else done (put_builder kind builder builders)

  unfoldable pub is_registered : String → Builders R → Bool
  unfolding get_builder
  is_registered kind builders = is_some (get_builder kind builders)

  unfoldable pub without_builder : String → Builders R → Builders R
  unfolding same_text
  without_builder kind [] = []
  without_builder kind ((k, b) ∷ builders) =
      let rest = without_builder kind builders in
      if same_text k kind then builders else (k, b) ∷ rest

  -- The builders afterwards, and whether the kind was registered.
  unfoldable pub unregister : String → Builders R → Builders R × Bool
  unfolding without_builder is_registered
  unregister kind builders =
      if is_registered kind builders
      then (without_builder kind builders, true)
      else (builders, false)

  abbrev pub get_available_types : Builders R → List String
  get_available_types = map (λ entry. entry.0)

  abbrev pub with_enabled : DestinationConfig → Outcome (Destination R) → Outcome (Destination R)
  with_enabled c (done d) = done (record d { enabled = c.enabled })
  with_enabled c (raises (configuration_error text)) = raises (configuration_error text)
  with_enabled c (raises (destination_error text)) = raises (destination_error text)
  with_enabled c (raises (other_error text)) =
      raises (destination_error "Failed to create destination")

  unfoldable pub create : Builders R → DestinationConfig → Outcome (Destination R)
  unfolding get_builder
  create builders c = elim (get_builder c.dest_type builders) [
    | none ↦ raises (configuration_error "Unknown destination type")
    | some builder ↦ with_enabled c (builder c)
  ]

  abbrev pub also_created :
      Outcome (Destination R) → Outcome (List (Destination R)) → Outcome (List (Destination R))
  also_created (raises e) rest = raises e
  also_created (done d) (raises e) = raises e
  also_created (done d) (done ds) = done (d ∷ ds)

  unfoldable pub create_loop :
      Builders R → Bool → List DestinationConfig → Outcome (List (Destination R))
  unfolding create
  create_loop builders skip_disabled [] = done []
  create_loop builders skip_disabled (c ∷ configs) =
      let rest = create_loop builders skip_disabled configs in
      if skip_disabled && not c.enabled then rest else also_created (create builders c) rest

  abbrev pub not_none_created : Outcome (List (Destination R)) → Outcome (List (Destination R))
  not_none_created (raises e) = raises e
  not_none_created (done []) =
      raises (configuration_error "No destinations to create (all disabled?)")
  not_none_created (done (d ∷ ds)) = done (d ∷ ds)

  unfoldable pub create_all :
      Builders R → Bool → List DestinationConfig → Outcome (List (Destination R))
  unfolding create_loop
  create_all builders skip_disabled [] =
      raises (configuration_error "At least one destination configuration is required")
  create_all builders skip_disabled (c ∷ configs) =
      not_none_created (create_loop builders skip_disabled (c ∷ configs))
