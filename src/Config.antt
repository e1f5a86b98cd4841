-- ===== src/Config.antt =====
-- src/sp_rtk_base_relay/config.py: the settings and their checks. The values have the types that the
-- dataclasses are annotated with, so the isinstance checks pass; a float is a fraction. A check is a
-- condition with the error that it raises, and the first that holds is raised; an error is its text,
-- without the values that the text lists.
pub mod Servers
pub mod Sources
pub mod Settings
pub mod Destinations
pub mod Overrides
pub mod Checks
mod Tests
use sp_rtk_base_relay.Prelude.{
  ℕ, String, Bool, true, false, ◌||◌, Option, none, some, List, [], ◌∷◌, if◌then◌else◌,
}
use sp_rtk_base_relay.Prelude.Int.{ℤ, pos, leb_int, ltb_int, times_suc}
use sp_rtk_base_relay.Prelude.Text.{same_text}

-- numerator / (below + 1)
pub record Number : Type 0 where
  pub numerator : ℤ
  pub below : ℕ

abbrev pub whole : ℤ → Number
whole z = record { numerator = z; below = 0 }

-- x <= 0
abbrev pub not_positive : ℤ → Bool
not_positive z = leb_int z (pos 0)

abbrev pub number_not_positive : Number → Bool
number_not_positive x = not_positive x.numerator

-- x <= 1.0
abbrev pub at_most_one : Number → Bool
at_most_one x = leb_int x.numerator (times_suc (pos 1) x.below)

-- x < y
abbrev pub number_below : Number → Number → Bool
number_below x y = ltb_int (times_suc x.numerator y.below) (times_suc y.numerator x.below)

-- port < 1 or port > 65535
abbrev pub not_a_port : ℤ → Bool
not_a_port port = ltb_int port (pos 1) || ltb_int (pos 65535) port

-- not text
abbrev pub is_blank : String → Bool
is_blank text = same_text text ""

unfoldable pub is_one_of : String → List String → Bool
is_one_of text [] = false
is_one_of text (t ∷ texts) = same_text text t || is_one_of text texts

pub record ConfigurationError : Type 0 where
  pub message : String

abbrev pub Check : Type 0
Check = Bool × ConfigurationError

abbrev pub check : Bool → String → Check
check fails message = (fails, record { message = message })

unfoldable pub first_error : List Check → Option ConfigurationError
first_error [] = none
first_error ((fails, e) ∷ checks) =
    let later = first_error checks in if fails then some e else later
