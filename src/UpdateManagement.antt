-- ===== src/UpdateManagement.antt =====
-- bsw/runtime/update-management: the data of update_manager.h, and the interface
-- `IUpdateBackend`.
pub mod Backend
pub mod Policy
pub mod Manager
pub mod Calls
pub mod Lifecycle
pub mod Versions
pub mod Examples
pub mod Recovery
pub mod Slots
pub mod AuditTrail
pub mod Trust
use open_autosar.Base.{ℕ, ◌==◌, Bool, String, List, Option, Dict, Result}
use open_autosar.Health.{HealthState}

pub data MachineState : Type 0 where
  startup driving_ready update_allowed degraded shutdown : MachineState

abbrev pub machine_code : MachineState → ℕ
machine_code startup = 0
machine_code driving_ready = 1
machine_code update_allowed = 2
machine_code degraded = 3
machine_code shutdown = 4

abbrev pub same_machine_state : MachineState → MachineState → Bool
same_machine_state a b = machine_code a == machine_code b

pub data TransactionState : Type 0 where
  idle transferred verified staged pending_activation : TransactionState
  pending_health_confirmation committed rolled_back rejected failed : TransactionState

abbrev pub transaction_code : TransactionState → ℕ
transaction_code idle = 0
transaction_code transferred = 1
transaction_code verified = 2
transaction_code staged = 3
transaction_code pending_activation = 4
transaction_code pending_health_confirmation = 5
transaction_code committed = 6
transaction_code rolled_back = 7
transaction_code rejected = 8
transaction_code failed = 9

abbrev pub same_transaction_state : TransactionState → TransactionState → Bool
same_transaction_state a b = transaction_code a == transaction_code b

pub data BackendOperation : Type 0 where
  none install_inactive activate_pending commit rollback : BackendOperation

abbrev pub operation_code : BackendOperation → ℕ
operation_code none = 0
operation_code install_inactive = 1
operation_code activate_pending = 2
operation_code commit = 3
operation_code rollback = 4

pub record SoftwareClusterPackage : Type 0 where
  pub cluster_name : String
  pub version : String
  pub signer_id : String
  pub signature_verified : Bool
  pub compatible_platform : Bool
  pub required_free_bytes : ℕ  -- size_t
  pub dependencies : List String
  pub manifests_present : Bool
  pub sbom_present : Bool
  pub provenance_present : Bool

pub record UpdatePolicy : Type 0 where
  pub activation_state : MachineState
  pub max_boot_attempts : ℕ  -- uint32
  pub require_sbom : Bool
  pub require_provenance : Bool
  pub trusted_signers : List String
  pub installed_versions : Dict String

pub record SlotStatus : Type 0 where
  pub active_slot : String
  pub inactive_slot : String
  pub pending_slot : Option String
  pub installed_in_inactive_slot : Option SoftwareClusterPackage
  pub active_package : Option SoftwareClusterPackage
  pub boot_attempts_remaining : ℕ  -- uint32
  pub inactive_slot_free_bytes : ℕ  -- size_t

pub record HealthConfirmation : Type 0 where
  pub execution_started : Bool
  pub platform_health : HealthState
  pub diagnostics_available : Bool
  pub dashboard_available : Bool

pub record AuditEvent : Type 0 where
  pub state : TransactionState
  pub message : String
  pub backend_operation : Option BackendOperation

-- The virtual functions over the state `B` of an implementation.
pub record UpdateBackend (B : Type 0) : Type 0 where
  pub status : B → Result SlotStatus
  pub install_inactive : B → SoftwareClusterPackage → B × Result Bool
  pub activate_pending : B → ℕ → B × Result Bool
  pub commit : B → B × Result Bool
  pub rollback : B → B × Result Bool

-- `backend_` is a reference: the backend behind it is part of this state.
pub record UpdateManager (B : Type 0) : Type 0 where
  pub backend : B
  pub policy : UpdatePolicy
  pub state : TransactionState
  pub pending_package : Option SoftwareClusterPackage
  pub audit_trail : List AuditEvent
