-- ===== src/Execution.antt =====
-- bsw/runtime/execution-management: the data of execution_manager.h.
pub mod Manager
pub mod Calls
pub mod Examples
pub mod Laws
pub mod Records
pub mod Budget
pub mod Transitions
pub mod Reachability
use open_autosar.Base.{ℕ, ℤ, Bool, ◌==◌, String, List, Option, Dict}
use open_autosar.Process.{EnvironmentVariable, LaunchPolicy, LaunchRecord}

pub data ProcessState : Type 0 where
  declared created starting running terminating stopped restart_pending degraded failed :
      ProcessState

pub data FunctionGroupState : Type 0 where
  off startup driving_ready diagnostic parking update degraded shutdown : FunctionGroupState

-- The position in the `enum class`.
abbrev pub process_code : ProcessState → ℕ
process_code declared = 0
process_code created = 1
process_code starting = 2
process_code running = 3
process_code terminating = 4
process_code stopped = 5
process_code restart_pending = 6
process_code ProcessState.degraded = 7
process_code failed = 8

abbrev pub same_process_state : ProcessState → ProcessState → Bool
same_process_state a b = process_code a == process_code b

abbrev pub group_code : FunctionGroupState → ℕ
group_code off = 0
group_code startup = 1
group_code driving_ready = 2
group_code diagnostic = 3
group_code parking = 4
group_code update = 5
group_code FunctionGroupState.degraded = 6
group_code shutdown = 7

abbrev pub same_state : FunctionGroupState → FunctionGroupState → Bool
same_state a b = group_code a == group_code b

pub record ResourcePolicy : Type 0 where
  pub max_restarts : ℕ  -- uint32
  pub startup_timeout : ℤ

pub record ProcessManifest : Type 0 where
  pub name : String
  pub executable : String
  pub arguments : List String
  pub environment : List EnvironmentVariable
  pub user : String
  pub group : String
  pub working_directory : String
  pub security_label : String
  pub resource_policy : ResourcePolicy
  pub launch_policy : LaunchPolicy

pub record ProcessRecord : Type 0 where
  pub manifest : ProcessManifest
  pub state : ProcessState
  pub restart_count : ℕ  -- uint32
  pub last_launch : Option LaunchRecord

-- `L` is the state of the launcher behind `launcher_`.
pub record ExecutionManager (L : Type 0) : Type 0 where
  pub processes : Dict ProcessRecord
  pub function_group : FunctionGroupState
  pub launcher : L
