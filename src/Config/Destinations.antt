-- ===== src/Config/Destinations.antt =====
-- The list of destinations in src/sp_rtk_base_relay/config.py.
-- Texts that are no ASCII are judged by `wide_alnum`, Python's str.isalnum() of one code point above
-- 127.
pub mod Accepted
use Prim.Native.Char.{code}
use Prim.Native.String
use sp_rtk_base_relay.Prelude.{
  ℕ, String, Bool, true, false, ◌||◌, ◌&&◌, not, leb, ltb, ◌==◌, Option, none, some, List, [], ◌∷◌,
  ◌++◌, if◌then◌else◌,
}
use sp_rtk_base_relay.Prelude.Int.{ℤ}
use sp_rtk_base_relay.Prelude.Text.{same_text}
use sp_rtk_base_relay.Filter.{
  FilterMode, pass_all, allowlist, blocklist, Result, FilterConfig, create, create_pass_all,
  create_allowlist, create_blocklist, is_pass_all, is_empty,
}
use sp_rtk_base_relay.Config.{ConfigurationError, check, first_error, is_blank, is_one_of}
use sp_rtk_base_relay.Config.Servers.{
  SurePathDestinationConfig, NtripDestinationConfig, TcpServerDestinationConfig,
}

-- The mode is one of the three, as the type of the field says.
pub record DestinationFilterConfig : Type 0 where
  pub mode : FilterMode
  pub message_ids : List ℤ

unfoldable pub check_filter : DestinationFilterConfig → Option ConfigurationError
check_filter f = first_error (
    check (is_pass_all f.mode && not (is_empty f.message_ids))
      "filter.message_ids must be empty when mode is 'pass_all'"
    ∷ check (not (is_pass_all f.mode) && is_empty f.message_ids) "filter.message_ids is required"
    ∷ [])

unfoldable pub convert_filter : FilterMode → List ℤ → Result FilterConfig
convert_filter pass_all ids = create_pass_all
convert_filter allowlist ids = create_allowlist ids
convert_filter blocklist ids = create_blocklist ids

unfoldable pub to_filter_config : DestinationFilterConfig → Result FilterConfig
unfolding convert_filter
to_filter_config f = convert_filter f.mode f.message_ids

pub data SpecificConfig : Type 0 where
  surepath : SurePathDestinationConfig → SpecificConfig
  ntrip : NtripDestinationConfig → SpecificConfig
  tcp_server : TcpServerDestinationConfig → SpecificConfig

pub record DestinationConfig : Type 0 where
  pub name : String
  pub dest_type : String
  pub enabled : Bool
  pub filter : DestinationFilterConfig
  pub config : SpecificConfig

module _ (wide_alnum : ℕ → Bool) where
  unfoldable pub is_alnum : ℕ → Bool
  is_alnum c =
      (leb 48 c && leb c 57)
      || (leb 65 c && leb c 90)
      || (leb 97 c && leb c 122)
      || (ltb 127 c && wide_alnum c)

  -- text.replace("_", "").replace("-", ""): a text of the characters that stay.
  unfoldable pub name_characters : String → List ℕ
  name_characters String.[] = []
  name_characters (String.◌∷◌ c text) =
      let rest = name_characters text in
      if (code c == 95) || (code c == 45) then rest else code c ∷ rest

  -- str.isalnum(), false for the empty text.
  unfoldable pub all_alnum : List ℕ → Bool
  all_alnum [] = true
  all_alnum (c ∷ cs) = is_alnum c && all_alnum cs

  unfoldable pub is_name : String → Bool
  unfolding is_alnum name_characters all_alnum
  is_name name = not (is_empty (name_characters name)) && all_alnum (name_characters name)

  unfoldable pub check_destination : DestinationConfig → Option ConfigurationError
  unfolding is_name is_one_of
  check_destination d = first_error (
      check (is_blank d.name) "destination.name cannot be empty"
      ∷ check (not (is_name d.name)) "destination.name must be alphanumeric"
      ∷ check (not (is_one_of d.dest_type ("surepath" ∷ "ntrip" ∷ "tcp_server" ∷ [])))
          "destination.type must be one of"
      ∷ [])

unfoldable pub get_enabled_destinations : List DestinationConfig → List DestinationConfig
get_enabled_destinations [] = []
get_enabled_destinations (d ∷ ds) =
    let rest = get_enabled_destinations ds in if d.enabled then d ∷ rest else rest

unfoldable pub get_destination_by_name : String → List DestinationConfig → Option DestinationConfig
get_destination_by_name name [] = none
get_destination_by_name name (d ∷ ds) =
    let later = get_destination_by_name name ds in if same_text d.name name then some d else later

pub data Parsed (A : Type 0) : Type 0 where
  parsed : A → Parsed A
  raises : ConfigurationError → Parsed A

-- The part of from_dict() that reads the list: each entry is what _parse_destination() gives for it.
unfoldable pub read_loop :
    List String → List (Parsed DestinationConfig) → Parsed (List DestinationConfig)
unfolding is_one_of
read_loop seen [] = parsed []
read_loop seen (raises e ∷ entries) = raises e
read_loop seen (parsed d ∷ entries) =
    let rest = read_loop (d.name ∷ seen) entries in
    if is_one_of d.name seen
    then raises (record { message = "Duplicate destination name" })
    else elim rest [ raises e ↦ raises e | parsed ds ↦ parsed (d ∷ ds) ]

unfoldable pub read_destinations : List (Parsed DestinationConfig) → Parsed (List DestinationConfig)
unfolding read_loop get_enabled_destinations
read_destinations entries =
    let read = elim (read_loop [] entries) as (λ x. Parsed (List DestinationConfig)) [
      | raises e ↦ raises e
      | parsed ds ↦
          if is_empty (get_enabled_destinations ds)
          then raises (record { message = "At least one destination must be enabled" })
          else parsed ds
    ] in
    if is_empty entries
    then raises (record { message = "destinations must be a non-empty list" })
    else read
