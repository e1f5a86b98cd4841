-- ===== src/Config/Servers.antt =====
-- The settings of an RTCM server and of the destinations, in src/sp_rtk_base_relay/config.py.
use sp_rtk_base_relay.Prelude.{
  ℕ, String, Bool, true, ◌||◌, ◌&&◌, not, leb, ◌==◌, Option, List, [], ◌∷◌,
}
use Prim.Native.Char.{code}
use sp_rtk_base_relay.Prelude.Int.{ℤ, pos, ltb_int}
use sp_rtk_base_relay.Prelude.Text.{same_text}
use sp_rtk_base_relay.Config.{
  Number, ConfigurationError, Check, check, first_error, not_positive, at_most_one, not_a_port,
  is_blank, is_one_of,
}

pub record RtcmServerConfig : Type 0 where
  pub host : String
  pub port : ℤ
  pub username : String
  pub password : String
  pub connection_timeout : ℤ
  pub read_timeout : ℤ
  pub heartbeat_timeout : ℤ
  pub retry_initial_delay : ℤ
  pub retry_max_delay : ℤ
  pub retry_multiplier : Number

abbrev pub rtcm_server_checks : RtcmServerConfig → List Check
rtcm_server_checks c =
    check (is_blank c.host) "rtcm_server.host cannot be empty"
    ∷ check (not_a_port c.port) "rtcm_server.port must be an integer between 1 and 65535"
    ∷ check (is_blank c.username) "rtcm_server.username cannot be empty"
    ∷ check (is_blank c.password) "rtcm_server.password cannot be empty"
    ∷ check (not_positive c.connection_timeout) "rtcm_server.connection_timeout must be positive"
    ∷ check (not_positive c.read_timeout) "rtcm_server.read_timeout must be positive"
    ∷ check (not_positive c.heartbeat_timeout) "rtcm_server.heartbeat_timeout must be positive"
    ∷ check (not_positive c.retry_initial_delay) "rtcm_server.retry_initial_delay must be positive"
    ∷ check (ltb_int c.retry_max_delay c.retry_initial_delay)
        "rtcm_server.retry_max_delay must be >= retry_initial_delay"
    ∷ check (at_most_one c.retry_multiplier) "rtcm_server.retry_multiplier must be > 1.0"
    ∷ []

-- `__post_init__`: the error that it raises, if any.
unfoldable pub check_rtcm_server : RtcmServerConfig → Option ConfigurationError
check_rtcm_server c = first_error (rtcm_server_checks c)

pub record SurePathDestinationConfig : Type 0 where
  pub host : String
  pub port : ℤ
  pub username : String
  pub password : String
  pub connection_timeout : ℤ
  pub read_timeout : ℤ
  pub heartbeat_timeout : ℤ
  pub retry_initial_delay : ℤ
  pub retry_max_delay : ℤ
  pub retry_multiplier : Number

abbrev pub surepath_checks : SurePathDestinationConfig → List Check
surepath_checks c =
    check (is_blank c.host) "destinations[surepath].config.host cannot be empty"
    ∷ check (not_a_port c.port) "destinations[surepath].config.port must be 1-65535"
    ∷ check (is_blank c.username) "destinations[surepath].config.username cannot be empty"
    ∷ check (is_blank c.password) "destinations[surepath].config.password cannot be empty"
    ∷ check (not_positive c.connection_timeout)
        "destinations[surepath].config.connection_timeout must be positive"
    ∷ check (not_positive c.read_timeout)
        "destinations[surepath].config.read_timeout must be positive"
    ∷ check (not_positive c.heartbeat_timeout)
        "destinations[surepath].config.heartbeat_timeout must be positive"
    ∷ check (not_positive c.retry_initial_delay)
        "destinations[surepath].config.retry_initial_delay must be positive"
    ∷ check (ltb_int c.retry_max_delay c.retry_initial_delay)
        "destinations[surepath].config.retry_max_delay must be >= retry_initial_delay"
    ∷ check (at_most_one c.retry_multiplier)
        "destinations[surepath].config.retry_multiplier must be > 1.0"
    ∷ []

unfoldable pub check_surepath : SurePathDestinationConfig → Option ConfigurationError
check_surepath c = first_error (surepath_checks c)

unfoldable pub to_rtcm_server_config : SurePathDestinationConfig → RtcmServerConfig
to_rtcm_server_config c = record {
  host = c.host;
  port = c.port;
  username = c.username;
  password = c.password;
  connection_timeout = c.connection_timeout;
  read_timeout = c.read_timeout;
  heartbeat_timeout = c.heartbeat_timeout;
  retry_initial_delay = c.retry_initial_delay;
  retry_max_delay = c.retry_max_delay;
  retry_multiplier = c.retry_multiplier;
}

pub record NtripDestinationConfig : Type 0 where
  pub caster : String
  pub port : ℤ
  pub mountpoint : String
  pub password : String
  pub username : String
  pub version : String
  pub connection_timeout : ℤ
  pub retry_initial_delay : ℤ
  pub retry_max_delay : ℤ
  pub retry_multiplier : Number

-- The code points that Python's str.strip() removes.
abbrev pub is_space : ℕ → Bool
is_space c =
    (leb 9 c && leb c 13)
    || (leb 28 c && leb c 32)
    || (c == 133)
    || (c == 160)
    || (c == 5760)
    || (leb 8192 c && leb c 8202)
    || (c == 8232)
    || (c == 8233)
    || (c == 8239)
    || (c == 8287)
    || (c == 12288)

-- not text.strip()
unfoldable pub is_blank_stripped : String → Bool
is_blank_stripped String.[] = true
is_blank_stripped (String.◌∷◌ c text) = is_space (code c) && is_blank_stripped text

abbrev pub ntrip_checks : NtripDestinationConfig → List Check
ntrip_checks c =
    check (is_blank c.caster) "destinations[ntrip].config.caster cannot be empty"
    ∷ check (not_a_port c.port) "destinations[ntrip].config.port must be 1-65535"
    ∷ check (is_blank c.mountpoint) "destinations[ntrip].config.mountpoint cannot be empty"
    ∷ check (is_blank c.password) "destinations[ntrip].config.password cannot be empty"
    ∷ check (not (is_one_of c.version ("1.0" ∷ "2.0" ∷ [])))
        "destinations[ntrip].config.version must be one of"
    ∷ check (not_positive c.connection_timeout)
        "destinations[ntrip].config.connection_timeout must be positive"
    ∷ check (not_positive c.retry_initial_delay)
        "destinations[ntrip].config.retry_initial_delay must be positive"
    ∷ check (ltb_int c.retry_max_delay c.retry_initial_delay)
        "destinations[ntrip].config.retry_max_delay must be >= retry_initial_delay"
    ∷ check (at_most_one c.retry_multiplier)
        "destinations[ntrip].config.retry_multiplier must be > 1.0"
    ∷ check (same_text c.version "2.0" && is_blank_stripped c.username)
        "destinations[ntrip].config.username is required for version 2.0 (v2 casters authenticate the server with Basic auth)"
    ∷ []

unfoldable pub check_ntrip : NtripDestinationConfig → Option ConfigurationError
unfolding is_blank_stripped is_one_of
check_ntrip c = first_error (ntrip_checks c)

pub record TcpServerDestinationConfig : Type 0 where
  pub host : String
  pub port : ℤ
  pub max_clients : ℤ

unfoldable pub check_tcp_server : TcpServerDestinationConfig → Option ConfigurationError
check_tcp_server c = first_error (
    check (not_a_port c.port) "destinations[tcp_server].config.port must be 1-65535"
    ∷ check (ltb_int c.max_clients (pos 1))
        "destinations[tcp_server].config.max_clients must be >= 1"
    ∷ [])
