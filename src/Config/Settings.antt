-- ===== src/Config/Settings.antt =====
-- The global settings, in src/sp_rtk_base_relay/config.py: monitoring, metrics, restart and logging.
use Prim.Native.Char.{code}
use sp_rtk_base_relay.Prelude.{String, Bool, false, ◌==◌, not, Option, [], ◌∷◌}
use sp_rtk_base_relay.Prelude.Int.{ℤ, pos, ltb_int}
use sp_rtk_base_relay.Config.{
  Number, ConfigurationError, check, first_error, not_positive, at_most_one, not_a_port, is_one_of,
}

pub record MonitoringConfig : Type 0 where
  pub heartbeat_timeout : ℤ
  pub reconnect_delay_base : ℤ
  pub reconnect_max_delay : ℤ
  pub max_reconnect_attempts : ℤ
  pub connection_check_interval : ℤ

unfoldable pub check_monitoring : MonitoringConfig → Option ConfigurationError
check_monitoring c = first_error (
    check (not_positive c.heartbeat_timeout) "monitoring.heartbeat_timeout must be positive"
    ∷ check (not_positive c.reconnect_delay_base) "monitoring.reconnect_delay_base must be positive"
    ∷ check (ltb_int c.reconnect_max_delay c.reconnect_delay_base)
        "monitoring.reconnect_max_delay must be >= reconnect_delay_base"
    ∷ check (ltb_int c.max_reconnect_attempts (pos 0))
        "monitoring.max_reconnect_attempts must be >= 0"
    ∷ check (not_positive c.connection_check_interval)
        "monitoring.connection_check_interval must be positive"
    ∷ [])

pub record MetricsConfig : Type 0 where
  pub enabled : Bool
  pub host : String
  pub port : ℤ
  pub path : String

-- text.startswith("/")
pub starts_with_slash : String → Bool
starts_with_slash String.[] = false
starts_with_slash (String.◌∷◌ c text) = code c == 47

unfoldable pub check_metrics : MetricsConfig → Option ConfigurationError
unfolding starts_with_slash
check_metrics c = first_error (
    check (not_a_port c.port) "metrics.port must be an integer between 1 and 65535"
    ∷ check (not (starts_with_slash c.path)) "metrics.path must start with '/'"
    ∷ [])

pub record PipelineRestartConfig : Type 0 where
  pub enabled : Bool
  pub max_attempts : ℤ
  pub initial_delay : ℤ
  pub max_delay : ℤ
  pub backoff_multiplier : Number
  pub reset_after_success : ℤ

unfoldable pub check_pipeline_restart : PipelineRestartConfig → Option ConfigurationError
check_pipeline_restart c = first_error (
    check (ltb_int c.max_attempts (pos 0)) "pipeline.restart.max_attempts must be >= 0"
    ∷ check (not_positive c.initial_delay) "pipeline.restart.initial_delay must be positive"
    ∷ check (ltb_int c.max_delay c.initial_delay)
        "pipeline.restart.max_delay must be >= initial_delay"
    ∷ check (at_most_one c.backoff_multiplier) "pipeline.restart.backoff_multiplier must be > 1.0"
    ∷ check (not_positive c.reset_after_success)
        "pipeline.restart.reset_after_success must be positive"
    ∷ [])

pub record LoggingConfig : Type 0 where
  pub level : String
  pub format : String
  pub file : Option String
  pub max_size_mb : ℤ
  pub backup_count : ℤ

unfoldable pub check_logging : LoggingConfig → Option ConfigurationError
unfolding is_one_of
check_logging c = first_error (
    check (not (is_one_of c.level ("DEBUG" ∷ "INFO" ∷ "WARNING" ∷ "ERROR" ∷ "CRITICAL" ∷ [])))
      "logging.level must be one of"
    ∷ check (not (is_one_of c.format ("json" ∷ "text" ∷ []))) "logging.format must be one of"
    ∷ check (not_positive c.max_size_mb) "logging.max_size_mb must be positive"
    ∷ check (ltb_int c.backup_count (pos 0)) "logging.backup_count must be >= 0"
    ∷ [])

pub record ServiceConfig : Type 0 where
  pub daemon : Bool
  pub pid_file : String
  pub user : String
  pub group : String
