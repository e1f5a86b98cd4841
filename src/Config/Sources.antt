-- ===== src/Config/Sources.antt =====
-- The settings of the input sources, in src/sp_rtk_base_relay/config.py.
use sp_rtk_base_relay.Prelude.{String, Bool, false, ◌||◌, ◌&&◌, not, Option, List, [], ◌∷◌}
use sp_rtk_base_relay.Prelude.Int.{ℤ, pos, times_suc, ◌==ℤ◌}
use sp_rtk_base_relay.Prelude.Text.{same_text}
use sp_rtk_base_relay.Config.{
  Number, whole, ConfigurationError, Check, check, first_error, number_not_positive, number_below,
  at_most_one, not_a_port, is_blank, is_one_of,
}

pub record TcpInputConfig : Type 0 where
  pub host : String
  pub port : ℤ
  pub timeout : Number
  pub buffer_size : ℤ

unfoldable pub check_tcp_input : TcpInputConfig → Option ConfigurationError
check_tcp_input c = first_error (
    check (is_blank c.host) "input.config.host cannot be empty"
    ∷ check (not_a_port c.port) "input.config.port must be an integer between 1 and 65535"
    ∷ check (number_not_positive c.timeout) "input.config.timeout must be positive"
    ∷ [])

pub record NtripInputConfig : Type 0 where
  pub caster : String
  pub port : ℤ
  pub mountpoint : String
  pub username : String
  pub password : String
  pub version : String
  pub tls : Bool
  pub connection_timeout : Number
  pub data_timeout : Number
  pub retry_initial_delay : Number
  pub retry_max_delay : Number
  pub retry_multiplier : Number

abbrev pub ntrip_input_checks : NtripInputConfig → List Check
ntrip_input_checks c =
    check (is_blank c.caster) "input.config.caster cannot be empty"
    ∷ check (not_a_port c.port) "input.config.port must be an integer between 1 and 65535"
    ∷ check (is_blank c.mountpoint) "input.config.mountpoint cannot be empty"
    ∷ check (not (is_one_of c.version ("1.0" ∷ "2.0" ∷ [])))
        "input.config.version must be \"1.0\" or \"2.0\""
    ∷ check (c.tls && not (same_text c.version "2.0"))
        "input.config.tls requires version \"2.0\" (NTRIP v1 has no TLS)"
    ∷ check (number_not_positive c.connection_timeout)
        "input.config.connection_timeout must be positive"
    ∷ check (number_not_positive c.data_timeout) "input.config.data_timeout must be positive"
    ∷ check (number_not_positive c.retry_initial_delay)
        "input.config.retry_initial_delay must be positive"
    ∷ check (number_below c.retry_max_delay c.retry_initial_delay)
        "input.config.retry_max_delay must be >= retry_initial_delay"
    ∷ check (at_most_one c.retry_multiplier) "input.config.retry_multiplier must be > 1.0"
    ∷ []

unfoldable pub check_ntrip_input : NtripInputConfig → Option ConfigurationError
unfolding is_one_of
check_ntrip_input c = first_error (ntrip_input_checks c)

pub record SerialInputConfig : Type 0 where
  pub port : String
  pub baudrate : ℤ
  pub bytesize : ℤ
  pub parity : String
  pub stopbits : Number
  pub timeout : Number
  pub rtscts : Bool
  pub xonxoff : Bool

pub is_one_of_ints : ℤ → List ℤ → Bool
is_one_of_ints z [] = false
is_one_of_ints z (y ∷ ys) = z ==ℤ y || is_one_of_ints z ys

abbrev pub same_number : Number → Number → Bool
same_number x y = times_suc x.numerator y.below ==ℤ times_suc y.numerator x.below

-- 1, 1.5 and 2
pub is_stopbits : Number → Bool
is_stopbits x =
    same_number x (whole (pos 1))
    || same_number x (record { numerator = pos 3; below = 1 })
    || same_number x (whole (pos 2))

abbrev pub serial_input_checks : SerialInputConfig → List Check
serial_input_checks c =
    check (is_blank c.port) "input.config.port cannot be empty"
    ∷ check
        (not (
          is_one_of_ints c.baudrate (
            pos 9600
            ∷ pos 19200
            ∷ pos 38400
            ∷ pos 57600
            ∷ pos 115200
            ∷ pos 230400
            ∷ pos 460800
            ∷ pos 921600
            ∷ [])))
        "input.config.baudrate must be one of"
    ∷ check (not (is_one_of_ints c.bytesize (pos 5 ∷ pos 6 ∷ pos 7 ∷ pos 8 ∷ [])))
        "input.config.bytesize must be one of"
    ∷ check (not (is_one_of c.parity ("N" ∷ "E" ∷ "O" ∷ "M" ∷ "S" ∷ [])))
        "input.config.parity must be one of"
    ∷ check (not (is_stopbits c.stopbits)) "input.config.stopbits must be one of"
    ∷ check (number_not_positive c.timeout) "input.config.timeout must be positive"
    ∷ []

unfoldable pub check_serial_input : SerialInputConfig → Option ConfigurationError
unfolding is_one_of is_one_of_ints is_stopbits
check_serial_input c = first_error (serial_input_checks c)
