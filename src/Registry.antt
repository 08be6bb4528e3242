-- ===== src/Registry.antt =====
-- bsw/runtime/registry: the data of registry_manager.h.
pub mod Validation
pub mod Manager
pub mod Records
pub mod Lookups
pub mod Histories
pub mod Examples
use open_autosar.Base.{ℕ, ◌==◌, Bool, String, List, Option}

pub data RegistryKind : Type 0 where
  machine process service function_group software_cluster diagnostic policy : RegistryKind

abbrev pub kind_code : RegistryKind → ℕ
kind_code machine = 0
kind_code process = 1
kind_code service = 2
kind_code function_group = 3
kind_code software_cluster = 4
kind_code diagnostic = 5
kind_code policy = 6

abbrev pub same_kind : RegistryKind → RegistryKind → Bool
same_kind a b = kind_code a == kind_code b

-- `ToString` of a kind, which orders the records of a query.
abbrev pub kind_text : RegistryKind → String
kind_text machine = "Machine"
kind_text process = "Process"
kind_text service = "Service"
kind_text function_group = "FunctionGroup"
kind_text software_cluster = "SoftwareCluster"
kind_text diagnostic = "Diagnostic"
kind_text policy = "Policy"

pub data RegistryState : Type 0 where
  declared active stale retired : RegistryState

abbrev pub state_code : RegistryState → ℕ
state_code declared = 0
state_code active = 1
state_code stale = 2
state_code retired = 3

abbrev pub same_state : RegistryState → RegistryState → Bool
same_state a b = state_code a == state_code b

pub record RegistryRecord : Type 0 where
  pub record_id : String
  pub kind : RegistryKind
  pub state : RegistryState
  pub version : String
  pub owner : String
  pub endpoint : String
  pub source_model : String
  pub last_update_ms : ℕ  -- uint64
  pub lease_ttl_ms : ℕ  -- uint64

pub record RegistryPolicy : Type 0 where
  pub max_records : ℕ  -- size_t
  pub require_source_model : Bool
  pub reject_duplicate_active_records : Bool
  pub default_lease_ttl_ms : ℕ  -- uint64

pub record RegistryQuery : Type 0 where
  pub kind : Option RegistryKind
  pub state : Option RegistryState
  pub owner_prefix : String
  pub record_prefix : String

pub record RegistrySnapshot : Type 0 where
  pub records : List RegistryRecord
  pub active_records : ℕ  -- uint32
  pub stale_records : ℕ  -- uint32
  pub retired_records : ℕ  -- uint32
  pub rejected_updates : ℕ  -- uint32

pub record RegistryManager : Type 0 where
  pub policy : RegistryPolicy
  pub records : List RegistryRecord
  pub rejected_updates : ℕ  -- uint32
