-- ===== src/Idsm.antt =====
-- bsw/security/intrusion-detection-system-management: the data of idsm_manager.h.
pub mod Recording
pub mod Calls
pub mod Privacy
pub mod Forwarding
pub mod Examples
use open_autosar.Base.{ℕ, Bool, String, List}
use open_autosar.Access.{SecuritySeverity, Operation}

pub data EventSource : Type 0 where
  kernel_audit communication authentication update : EventSource
  diagnostics firewall health_manager application : EventSource

abbrev pub source_code : EventSource → ℕ
source_code kernel_audit = 0
source_code communication = 1
source_code authentication = 2
source_code update = 3
source_code diagnostics = 4
source_code firewall = 5
source_code health_manager = 6
source_code application = 7

pub data PrivacyMode : Type 0 where
  plain redact_principal redact_identifiers : PrivacyMode

abbrev pub hides_principal : PrivacyMode → Bool
hides_principal plain = Bool.false
hides_principal redact_principal = Bool.true
hides_principal redact_identifiers = Bool.true

abbrev pub hides_resource : PrivacyMode → Bool
hides_resource plain = Bool.false
hides_resource redact_principal = Bool.false
hides_resource redact_identifiers = Bool.true

pub data IdsmAction : Type 0 where
  accepted aggregated throttled dropped_oldest rejected : IdsmAction

pub record IdsmEvent : Type 0 where
  pub source : EventSource
  pub category : String
  pub severity : SecuritySeverity
  pub principal_id : String
  pub resource_id : String
  pub operation : Operation
  pub detail : String
  pub count : ℕ  -- uint32
  pub timestamp_ms : ℕ  -- uint64

pub record IdsmPolicy : Type 0 where
  pub max_records : ℕ  -- size_t
  pub aggregation_window_ms : ℕ  -- uint64
  pub rate_limit_count : ℕ  -- uint32
  pub rate_limit_window_ms : ℕ  -- uint64
  pub forwarding_threshold : SecuritySeverity
  pub backend_forwarding_enabled : Bool
  pub privacy_mode : PrivacyMode

pub record IdsmReceipt : Type 0 where
  pub action : IdsmAction
  pub reason : String
  pub count : ℕ  -- uint32
  pub forwarded : Bool

pub record IdsmSnapshot : Type 0 where
  pub records : List IdsmEvent
  pub dropped_events : ℕ  -- uint32
  pub throttled_events : ℕ  -- uint32
  pub forwarded_events : ℕ  -- uint32
  pub critical_events : ℕ  -- uint32

pub record IdsmManager : Type 0 where
  pub policy : IdsmPolicy
  pub records : List IdsmEvent
  pub forwarding_queue : List IdsmEvent
  pub dropped_events : ℕ  -- uint32
  pub throttled_events : ℕ  -- uint32
  pub forwarded_events : ℕ  -- uint32
