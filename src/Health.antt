-- ===== src/Health.antt =====
-- bsw/runtime/platform-health-management: the data of platform_health_manager.h.
pub mod Supervision
pub mod Manager
pub mod Restarts
pub mod Sequence
pub mod Alive
pub mod Examples
use open_autosar.Base.{ℕ, ℤ, ◌==◌, Bool, String, List, Option, Dict}

pub data HealthState : Type 0 where
  healthy degraded failed : HealthState

pub data SupervisionStatus : Type 0 where
  ok missing_checkpoint logical_sequence_error deadline_missed process_terminated :
      SupervisionStatus
  resource_exhausted service_unavailable restart_limit_exceeded : SupervisionStatus

pub data RecoveryAction : Type 0 where
  ignore restart_process restart_function_group enter_degraded_mode : RecoveryAction
  request_machine_restart trigger_external_watchdog request_safe_state : RecoveryAction

pub record SupervisionPolicy : Type 0 where
  pub entity : String
  pub checkpoint_sequence : List String
  pub alive_timeout : ℤ
  pub deadline_timeout : ℤ
  pub degraded_after_missed_alive : ℕ  -- uint32
  pub failed_after_missed_alive : ℕ  -- uint32
  pub max_restart_count : ℕ  -- uint32
  pub activation_time_ms : ℕ  -- uint64
  pub sequence_error_action : RecoveryAction
  pub deadline_miss_action : RecoveryAction
  pub degraded_action : RecoveryAction
  pub failed_action : RecoveryAction
  pub termination_action : RecoveryAction
  pub resource_exhaustion_action : RecoveryAction
  pub service_unavailable_action : RecoveryAction

pub record SupervisionReport : Type 0 where
  pub entity : String
  pub health : HealthState
  pub status : SupervisionStatus
  pub action : RecoveryAction
  pub missed_alive_count : ℕ  -- uint32
  pub restart_count : ℕ  -- uint32
  pub timestamp_ms : ℕ  -- uint64
  pub last_checkpoint : Option String
  pub detail : String

pub record EntityState : Type 0 where
  pub policy : SupervisionPolicy
  pub report : SupervisionReport
  pub next_checkpoint_index : ℕ  -- size_t
  pub last_checkpoint_time_ms : Option ℕ  -- uint64

-- `entities_`.
pub record PlatformHealthManager : Type 0 where
  pub entities : Dict EntityState

abbrev status_code : SupervisionStatus → ℕ
status_code ok = 0
status_code missing_checkpoint = 1
status_code logical_sequence_error = 2
status_code deadline_missed = 3
status_code process_terminated = 4
status_code resource_exhausted = 5
status_code service_unavailable = 6
status_code restart_limit_exceeded = 7

abbrev pub same_status : SupervisionStatus → SupervisionStatus → Bool
same_status a b = status_code a == status_code b
