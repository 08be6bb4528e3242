-- ===== src/Process.antt =====
-- platform/os/process: the data that Execution Management hands to a process launcher, and the
-- interface `IProcessLauncher` (process_launcher.h).
use open_autosar.Base.{ℕ, ℤ, Bool, String, List, Result}

pub data LauncherProcessState : Type 0 where
  created running terminated failed : LauncherProcessState

pub record EnvironmentVariable : Type 0 where
  pub name : String
  pub value : String

pub record CgroupPolicy : Type 0 where
  pub slice : String
  pub scope_prefix : String
  pub memory_max_bytes : ℕ
  pub cpu_weight : ℕ
  pub allowed_cpus : List ℕ
  pub file_descriptor_limit : ℕ

pub record NamespacePolicy : Type 0 where
  pub private_tmp : Bool
  pub private_devices : Bool
  pub private_network : Bool
  pub protect_system : Bool

pub record CapabilityPolicy : Type 0 where
  pub permitted : List String
  pub no_new_privileges : Bool

pub record SeccompPolicy : Type 0 where
  pub profile : String
  pub allowed_syscall_groups : List String

pub record LaunchPolicy : Type 0 where
  pub cgroup : CgroupPolicy
  pub namespaces : NamespacePolicy
  pub capabilities : CapabilityPolicy
  pub seccomp : SeccompPolicy

pub record ProcessLaunchSpec : Type 0 where
  pub process_name : String
  pub executable : String
  pub arguments : List String
  pub environment : List EnvironmentVariable
  pub user : String
  pub group : String
  pub working_directory : String
  pub security_label : String
  pub policy : LaunchPolicy
  pub startup_timeout : ℤ

pub record LaunchRecord : Type 0 where
  pub pid : ℕ
  pub process_name : String
  pub state : LauncherProcessState
  pub executable : String
  pub argv : List String
  pub environment : List String
  pub scope_name : String
  pub systemd_properties : List String
  pub cgroup_operations : List String
  pub created : Bool
  pub initialized : Bool
  pub resource_policy_applied : Bool

-- The virtual functions over the state `L` of an implementation.
pub record ProcessLauncher (L : Type 0) : Type 0 where
  pub launch : L → ProcessLaunchSpec → L × Result LaunchRecord
  pub stop : L → String → L × Result LaunchRecord
  pub status : L → String → Result LaunchRecord
