-- ===== src/Config/Checks.antt =====
-- What the checks of src/sp_rtk_base_relay/config.py accept.
use sp_rtk_base_relay.Prelude.{
  ℕ, ◌+◌, ◌≤◌, ◌≡◌, refl, ◌∙◌, ap, ap₂, inl, inr, false, none, List, [], ◌∷◌, All, arith,
  Bool-cases,
}
use sp_rtk_base_relay.Prelude.Int.{ℤ, pos, negsuc, natural, leb_int, ltb_int, times_suc}
use sp_rtk_base_relay.Client.{ClientConfig}
use sp_rtk_base_relay.Client.Calls.{IsConfig}
use sp_rtk_base_relay.Config.{Number, whole, Check, first_error, not_positive, number_not_positive}
use sp_rtk_base_relay.Config.Servers.{
  RtcmServerConfig, check_rtcm_server, rtcm_server_checks, SurePathDestinationConfig,
  check_surepath, surepath_checks, to_rtcm_server_config, NtripDestinationConfig, ntrip_checks,
  check_ntrip,
}
use sp_rtk_base_relay.Config.Sources.{NtripInputConfig, ntrip_input_checks, check_ntrip_input}

-- The condition of a check does not hold.
abbrev pub Passes : Check → Type 0
Passes c = c.0 ≡ false

-- No error is raised exactly when every check passes.
pub first_error_sound : (checks : List Check) → first_error checks ≡ none → All Passes checks
unfolding first_error
first_error_sound [] h = tt
first_error_sound ((fails, e) ∷ checks) h = elim (Bool-cases fails) [
  | inl failed ↦ absurd (ground (arith, failed, h))
  | inr passed ↦ (passed, first_error_sound checks (ground (arith, passed, h)))
]

pub first_error_complete : (checks : List Check) → All Passes checks → first_error checks ≡ none
unfolding first_error
first_error_complete [] h = refl
first_error_complete ((fails, e) ∷ checks) h = rw h.0 (first_error_complete checks h.1)

-- The numbers that the client takes from its settings.
abbrev pub client_config : RtcmServerConfig → ClientConfig
client_config c = record {
  heartbeat_timeout = natural c.heartbeat_timeout;
  retry_initial_delay = natural c.retry_initial_delay;
  retry_max_delay = natural c.retry_max_delay;
  retry_multiplier = (natural c.retry_multiplier.numerator, c.retry_multiplier.below + 1);
}

natural-le : (a b : ℤ) → not_positive a ≡ false → ltb_int b a ≡ false → natural a ≤ natural b
natural-le (pos a) (pos b) h k = ground (arith, k)
natural-le (pos a) (negsuc b) h k = ground (arith, k)
natural-le (negsuc a) b h k = ground (arith, h)

natural-above :
    (z : ℤ) (below : ℕ) → leb_int z (times_suc (pos 1) below) ≡ false → below + 1 ≤ natural z
natural-above (pos a) below h = ground (arith, h)
natural-above (negsuc a) below h = ground (arith, h)

-- A Sure-Path configuration that is accepted converts to a server configuration that is accepted
-- too, and its numbers are what the client relies on: the initial delay is at most the maximal one,
-- and the multiplier is at least one.
pub check_surepath-client :
    (c : SurePathDestinationConfig)
    → check_surepath c ≡ none
    → (check_rtcm_server (to_rtcm_server_config c) ≡ none)
      × IsConfig (client_config (to_rtcm_server_config c))
unfolding check_surepath check_rtcm_server to_rtcm_server_config
check_surepath-client c accepted =
    let passes = first_error_sound (surepath_checks c) accepted in
    let (
      host,
      (
        port,
        (
          username,
          (password, (connection, (read, (heart, (initial, (maximal, (growing, done))))))),
        ),
      ),
    ) =
      passes in
    (
      first_error_complete (rtcm_server_checks (to_rtcm_server_config c)) passes,
      record {
        ordered = natural-le c.retry_initial_delay c.retry_max_delay initial maximal;
        fraction = omega arith;
        growing = natural-above c.retry_multiplier.numerator c.retry_multiplier.below growing;
      },
    )

-- The same settings as the input from a caster, without TLS.
unfoldable pub as_input : NtripDestinationConfig → Number → NtripInputConfig
as_input c data_timeout = record {
  caster = c.caster;
  port = c.port;
  mountpoint = c.mountpoint;
  username = c.username;
  password = c.password;
  version = c.version;
  tls = false;
  connection_timeout = whole c.connection_timeout;
  data_timeout = data_timeout;
  retry_initial_delay = whole c.retry_initial_delay;
  retry_max_delay = whole c.retry_max_delay;
  retry_multiplier = c.retry_multiplier;
}

times_suc_zero : (z : ℤ) → times_suc z 0 ≡ z
times_suc_zero (pos a) = ap pos (omega arith)
times_suc_zero (negsuc a) = ap negsuc (omega arith)

-- The settings of a destination caster that are accepted are accepted for an input caster as well,
-- with any positive data timeout.
pub check_ntrip-input :
    (c : NtripDestinationConfig) (data_timeout : Number)
    → check_ntrip c ≡ none
    → number_not_positive data_timeout ≡ false
    → check_ntrip_input (as_input c data_timeout) ≡ none
unfolding check_ntrip check_ntrip_input as_input
check_ntrip-input c data_timeout accepted lasting =
    let (
      caster,
      (
        port,
        (mountpoint, (password, (version, (connection, (initial, (maximal, (growing, more))))))),
      ),
    ) =
      first_error_sound (ntrip_checks c) accepted in
    let ordered =
      ap₂ ltb_int (times_suc_zero c.retry_max_delay) (times_suc_zero c.retry_initial_delay)
      ∙ maximal in
    first_error_complete (ntrip_input_checks (as_input c data_timeout)) (
      caster,
      (
        port,
        (
          mountpoint,
          (version, (refl, (connection, (lasting, (initial, (ordered, (growing, tt))))))),
        ),
      ),
    )
