-- ===== src/Config/Tests.antt =====
-- Examples of the settings of src/sp_rtk_base_relay/config.py.
use sp_rtk_base_relay.Prelude.{
  ◌≡◌, ◌↔◌, refl, String, Bool, true, false, none, some, List, [], ◌∷◌, ◌≢◌, if◌then◌else◌,
}
use sp_rtk_base_relay.Prelude.Int.{pos}
use sp_rtk_base_relay.Prelude.Text.{same_text}
use sp_rtk_base_relay.Filter.{allowlist, pass_all}
use sp_rtk_base_relay.Client.Calls.{IsConfig}
use sp_rtk_base_relay.Config.{Number, whole, first_error, is_one_of}
use sp_rtk_base_relay.Config.Servers.{
  SurePathDestinationConfig, check_surepath, check_rtcm_server, to_rtcm_server_config,
  NtripDestinationConfig,
}
use sp_rtk_base_relay.Config.Destinations.{
  DestinationFilterConfig, DestinationConfig, surepath, parsed, read_loop, read_destinations,
  get_enabled_destinations, check_destination, is_name, name_characters, all_alnum, is_alnum,
}
use sp_rtk_base_relay.Config.Destinations.Accepted.{IsAccepted, read_destinations_iff}
use sp_rtk_base_relay.Config.Checks.{check_surepath-client, client_config}
use sp_rtk_base_relay.Config.Overrides.{
  integer, text, dictionary, Entries, empty, entry, get_entry, put_entry, TextReading,
  convert_env_value, section_of, set_nested,
}
use sp_rtk_base_relay.Config.Overrides.Nested.{get_path, set_nested-get}

abbrev two : Number
two = whole (pos 2)

abbrev surepath_settings : SurePathDestinationConfig
surepath_settings = record {
  host = "rtcm.example.com";
  port = pos 50010;
  username = "user";
  password = "secret";
  connection_timeout = pos 10;
  read_timeout = pos 30;
  heartbeat_timeout = pos 30;
  retry_initial_delay = pos 15;
  retry_max_delay = pos 60;
  retry_multiplier = two;
}

check_surepath-client_example :
    (check_rtcm_server (to_rtcm_server_config surepath_settings) ≡ none)
    × IsConfig (client_config (to_rtcm_server_config surepath_settings))
unfolding check_surepath first_error same_text
check_surepath-client_example = check_surepath-client surepath_settings refl

abbrev ntrip_settings : NtripDestinationConfig
ntrip_settings = record {
  caster = "rtk2go.com";
  port = pos 2101;
  mountpoint = "MOUNT";
  password = "secret";
  username = "user";
  version = "2.0";
  connection_timeout = pos 15;
  retry_initial_delay = pos 10;
  retry_max_delay = pos 120;
  retry_multiplier = two;
}

abbrev wide_filter : DestinationFilterConfig
wide_filter = record { mode = allowlist; message_ids = pos 1005 ∷ pos 5000 ∷ [] }

abbrev destination : String → Bool → DestinationConfig
destination name enabled = record {
  name = name;
  dest_type = "surepath";
  enabled = enabled;
  filter = record { mode = pass_all; message_ids = [] };
  config = surepath surepath_settings;
}

abbrev two_destinations : List DestinationConfig
two_destinations = destination "first" false ∷ destination "second_2" true ∷ []

read_destinations_iff_example :
    (read_destinations
        (parsed (destination "first" false) ∷ parsed (destination "second_2" true) ∷ [])
      ≡ parsed two_destinations)
    ↔ IsAccepted
        (parsed (destination "first" false) ∷ parsed (destination "second_2" true) ∷ [])
        two_destinations
read_destinations_iff_example =
    read_destinations_iff
      (parsed (destination "first" false) ∷ parsed (destination "second_2" true) ∷ [])
      two_destinations

two_read :
    read_destinations
      (parsed (destination "first" false) ∷ parsed (destination "second_2" true) ∷ [])
    ≡ parsed two_destinations
unfolding read_destinations read_loop is_one_of same_text get_enabled_destinations
two_read = refl

second_named : check_destination (λ c. false) (destination "second_2" true) ≡ none
unfolding check_destination first_error is_name name_characters all_alnum is_alnum is_one_of
    same_text
second_named = refl

abbrev plain_reading : TextReading
plain_reading = record {
  to_int = λ t. if same_text t "6000" then some (pos 6000) else none;
  to_float = λ t. none;
  lower = λ t. t;
}

abbrev input_settings : Entries
input_settings =
    entry "input"
      (dictionary (entry "source" (text "tcp") (entry "config" (dictionary empty) empty))) empty

abbrev changed_settings : Entries
changed_settings =
    entry "input"
      (dictionary (
        entry "source" (text "tcp")
          (entry "config" (dictionary (entry "port" (integer (pos 6000)) empty)) empty)))
      empty

set_nested-get_example :
    (get_path changed_settings ("input" ∷ "config" ∷ []) "port"
      ≡ some (convert_env_value plain_reading "port" "6000"))
    × ((j : String)
        → j ≢ "port"
        → get_path changed_settings ("input" ∷ "config" ∷ []) j
          ≡ get_path input_settings ("input" ∷ "config" ∷ []) j)
unfolding set_nested section_of get_entry put_entry convert_env_value is_one_of same_text
set_nested-get_example =
    set_nested-get plain_reading input_settings changed_settings ("input" ∷ "config" ∷ []) "port"
      "6000" refl
