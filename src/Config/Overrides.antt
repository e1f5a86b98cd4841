-- ===== src/Config/Overrides.antt =====
-- How src/sp_rtk_base_relay/config.py overrides settings by environment variables: ConfigManager.
-- A dictionary is an association list in the order of its keys. Python's int(), float() and lower()
-- of a text are arguments; `none` is their ValueError. A result `none` is the TypeError of reading a
-- value that is no dictionary as one.
pub mod Nested
use sp_rtk_base_relay.Prelude.{
  ℕ, String, Bool, true, false, Option, none, some, List, [], ◌∷◌, if◌then◌else◌,
}
use sp_rtk_base_relay.Prelude.Int.{ℤ}
use sp_rtk_base_relay.Prelude.Text.{same_text}
use sp_rtk_base_relay.Config.{Number, is_one_of}

mutual
  pub data Value : Type 0 where
    null : Value
    boolean : Bool → Value
    integer : ℤ → Value
    floating : Number → Value
    text : String → Value
    sequence : Values → Value
    dictionary : Entries → Value

  pub data Values : Type 0 where
    no_values : Values
    one_value : Value → Values → Values

  pub data Entries : Type 0 where
    empty : Entries
    entry : String → Value → Entries → Entries

unfoldable pub get_entry : String → Entries → Option Value
get_entry key empty = none
get_entry key (entry k v entries) =
    let later = get_entry key entries in if same_text k key then some v else later

-- data[key] = value
unfoldable pub put_entry : String → Value → Entries → Entries
put_entry key value empty = entry key value empty
put_entry key value (entry k v entries) =
    let later = entry k v (put_entry key value entries) in
    if same_text k key then entry k value entries else later

abbrev pub int_fields : List String
int_fields =
    "port" ∷ "baudrate" ∷ "bytesize" ∷ "heartbeat_timeout" ∷ "reconnect_max_delay"
    ∷ "connection_timeout" ∷ "read_timeout" ∷ "retry_initial_delay" ∷ "retry_max_delay"
    ∷ "max_clients" ∷ []

abbrev pub float_fields : List String
float_fields = "retry_multiplier" ∷ "timeout" ∷ "stopbits" ∷ []

abbrev pub bool_fields : List String
bool_fields = "enabled" ∷ "rtscts" ∷ "xonxoff" ∷ []

-- What the source uses of Python's texts.
pub record TextReading : Type 0 where
  pub to_int : String → Option ℤ
  pub to_float : String → Option Number
  pub lower : String → String

abbrev pub integer_or_text : Option ℤ → String → Value
integer_or_text none value = text value
integer_or_text (some z) value = integer z

abbrev pub number_or_text : Option Number → String → Value
number_or_text none value = text value
number_or_text (some x) value = floating x

-- The dictionary that is read at a key, made if there is none.
unfoldable pub section_of : Option Value → Option Entries
section_of none = some empty
section_of (some (dictionary entries)) = some entries
section_of (some _) = none

-- os.getenv
unfoldable pub getenv : String → List (String × String) → Option String
getenv name [] = none
getenv name ((n, v) ∷ environment) =
    let later = getenv name environment in if same_text n name then some v else later

module _ (reading : TextReading) where
  unfoldable pub convert_env_value : String → String → Value
  unfolding is_one_of
  convert_env_value field_name value =
      if is_one_of field_name int_fields
      then integer_or_text (reading.to_int value) value
      else if is_one_of field_name float_fields
      then number_or_text (reading.to_float value) value
      else if is_one_of field_name bool_fields
      then boolean (is_one_of (reading.lower value) ("true" ∷ "1" ∷ "yes" ∷ "on" ∷ []))
      else text value

  -- The path is given as the keys before the last one, and the last one.
  unfoldable pub set_nested : Entries → List String → String → String → Option Entries
  unfolding section_of
  set_nested settings [] final_key value =
      some (put_entry final_key (convert_env_value final_key value) settings)
  set_nested settings (key ∷ path) final_key value = elim (section_of (get_entry key settings)) [
    | none ↦ none
    | some current ↦ elim (set_nested current path final_key value) [
      | none ↦ none
      | some current' ↦ some (put_entry key (dictionary current') settings)
    ]
  ]

  -- The loop over the global mappings: a variable with the path that it sets.
  unfoldable pub override_loop :
      List (String × (List String × String)) → List (String × String) → Entries → Option Entries
  unfolding getenv
  override_loop [] environment settings = some settings
  override_loop ((name, (path, final_key)) ∷ mappings) environment settings =
      elim (getenv name environment) [
        | none ↦ override_loop mappings environment settings
        | some value ↦ elim (set_nested settings path final_key value) [
          | none ↦ none
          | some settings' ↦ override_loop mappings environment settings'
        ]
      ]

abbrev pub global_mappings : List (String × (List String × String))
global_mappings =
    ("SP_INPUT_SOURCE", ("input" ∷ [], "source"))
    ∷ ("SP_INPUT_TCP_HOST", ("input" ∷ "config" ∷ [], "host"))
    ∷ ("SP_INPUT_TCP_PORT", ("input" ∷ "config" ∷ [], "port"))
    ∷ ("SP_INPUT_TCP_TIMEOUT", ("input" ∷ "config" ∷ [], "timeout"))
    ∷ ("SP_INPUT_SERIAL_PORT", ("input" ∷ "config" ∷ [], "port"))
    ∷ ("SP_INPUT_SERIAL_BAUDRATE", ("input" ∷ "config" ∷ [], "baudrate"))
    ∷ ("SP_INPUT_SERIAL_BYTESIZE", ("input" ∷ "config" ∷ [], "bytesize"))
    ∷ ("SP_INPUT_SERIAL_PARITY", ("input" ∷ "config" ∷ [], "parity"))
    ∷ ("SP_INPUT_SERIAL_STOPBITS", ("input" ∷ "config" ∷ [], "stopbits"))
    ∷ ("SP_INPUT_SERIAL_TIMEOUT", ("input" ∷ "config" ∷ [], "timeout"))
    ∷ ("SP_METRICS_ENABLED", ("metrics" ∷ [], "enabled"))
    ∷ ("SP_METRICS_PORT", ("metrics" ∷ [], "port"))
    ∷ ("SP_LOG_LEVEL", ("logging" ∷ [], "level"))
    ∷ ("SP_LOG_FORMAT", ("logging" ∷ [], "format"))
    ∷ []
