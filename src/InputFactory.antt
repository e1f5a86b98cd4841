-- ===== src/InputFactory.antt =====
-- src/sp_rtk_base_relay/core/input_sources/input_factory.py: the registry of input sources, and how
-- one is created from its configuration.
-- The two dictionaries are association lists. A class is given as its constructor, and a builder of
-- configurations as a function; `none` is an exception. The texts leave out names and reasons. The
-- schemas and examples, which are constant data, and the log lines are left out.
use sp_rtk_base_relay.Prelude.{
  String, Option, none, some, List, [], ◌∷◌, map, is_some, if◌then◌else◌,
}
use sp_rtk_base_relay.Prelude.Text.{same_text}

-- What the errors are: unknown type, or configuration; failed creation.
pub data InputError : Type 0 where
  configuration_error : String → InputError
  input_source_error : String → InputError

pub data Made (A : Type 0) : Type 0 where
  made : A → Made A
  failed : InputError → Made A

module _ {A : Type 0} where
  -- d[key] = value
  pub put_entry : String → A → List (String × A) → List (String × A)
  put_entry key value [] = (key, value) ∷ []
  put_entry key value ((known, old) ∷ entries) =
      let rest = put_entry key value entries in
      if same_text known key then (known, value) ∷ entries else (known, old) ∷ rest

  pub get_entry : String → List (String × A) → Option A
  get_entry key [] = none
  get_entry key ((known, value) ∷ entries) =
      let rest = get_entry key entries in if same_text known key then some value else rest

abbrev pub constructed : {S : Type 0} {I : Type 0} → (S → Option I) → Option S → Option I
constructed source_class none = none
constructed source_class (some source_config) = source_class source_config

abbrev pub or_failed : {I : Type 0} → Option I → Made I
or_failed (some source) = made source
or_failed none = failed (input_source_error "Failed to create input source")

-- `C` is a configuration as given, `S` the configuration object, `I` the input source.
pub record InputFactory (C : Type 0) (S : Type 0) (I : Type 0) : Type 0 where
  pub source_types : List (String × (S → Option I))
  pub config_builders : List (String × (C → Option S))

module _ {C : Type 0} {S : Type 0} {I : Type 0} where
  pub register_source_type :
      String → (S → Option I) → (C → Option S) → InputFactory C S I → InputFactory C S I
  register_source_type source_type source_class config_builder f = record {
    source_types = put_entry source_type source_class f.source_types;
    config_builders = put_entry source_type config_builder f.config_builders;
  }

  abbrev pub get_available_types : InputFactory C S I → List String
  get_available_types f = map (λ entry. entry.0) f.source_types

  -- `config_builders[source_type](config)`, a KeyError included.
  pub built_config : InputFactory C S I → String → C → Option S
  built_config f source_type config = elim (get_entry source_type f.config_builders) [
    | none ↦ none
    | some config_builder ↦ config_builder config
  ]

  pub create_input_source : InputFactory C S I → String → C → Made I
  create_input_source f source_type config = elim (get_entry source_type f.source_types) [
    | none ↦ failed (configuration_error "Unknown input source type")
    | some source_class ↦ or_failed (constructed source_class (built_config f source_type config))
  ]

  pub validate_config : InputFactory C S I → String → C → Made Unit
  validate_config f source_type config =
      let valid = is_some (built_config f source_type config) in
      elim (get_entry source_type f.source_types) [
        | none ↦ failed (configuration_error "Unknown input source type")
        | some source_class ↦
            if valid then made tt else failed (configuration_error "Invalid configuration")
      ]
