-- ===== src/Access.antt =====
-- bsw/security/identity-access-management: the data of identity_access_manager.h.
pub mod Policy
pub mod Trust
pub mod Events
pub mod Decisions
pub mod Revocation
pub mod Counting
pub mod Examples
use open_autosar.Base.{ℕ, ◌==◌, Bool, true, false, String, List}

pub data Decision : Type 0 where
  allow deny : Decision

abbrev pub is_deny : Decision → Bool
is_deny allow = false
is_deny deny = true

pub data ResourceKind : Type 0 where
  service diagnostic update persistency firewall api_gateway application : ResourceKind

abbrev pub kind_code : ResourceKind → ℕ
kind_code service = 0
kind_code diagnostic = 1
kind_code update = 2
kind_code persistency = 3
kind_code firewall = 4
kind_code api_gateway = 5
kind_code application = 6

abbrev pub same_kind : ResourceKind → ResourceKind → Bool
same_kind a b = kind_code a == kind_code b

pub data Operation : Type 0 where
  offer_service find_service subscribe_event publish_event call_method : Operation
  complete_method get_field set_field subscribe_field subscribe_trigger fire_trigger : Operation
  diagnostic_read diagnostic_security_access diagnostic_clear_dtc : Operation
  diagnostic_routine_control update_verify persistency_read persistency_write : Operation
  persistency_remove install_firewall_rule invoke_gateway_route : Operation

abbrev pub operation_code : Operation → ℕ
operation_code offer_service = 0
operation_code find_service = 1
operation_code subscribe_event = 2
operation_code publish_event = 3
operation_code call_method = 4
operation_code complete_method = 5
operation_code get_field = 6
operation_code set_field = 7
operation_code subscribe_field = 8
operation_code subscribe_trigger = 9
operation_code fire_trigger = 10
operation_code diagnostic_read = 11
operation_code diagnostic_security_access = 12
operation_code diagnostic_clear_dtc = 13
operation_code diagnostic_routine_control = 14
operation_code update_verify = 15
operation_code persistency_read = 16
operation_code persistency_write = 17
operation_code persistency_remove = 18
operation_code install_firewall_rule = 19
operation_code invoke_gateway_route = 20

abbrev pub same_operation : Operation → Operation → Bool
same_operation a b = operation_code a == operation_code b

pub data SecuritySeverity : Type 0 where
  info warning critical : SecuritySeverity

abbrev pub severity_code : SecuritySeverity → ℕ
severity_code info = 0
severity_code warning = 1
severity_code critical = 2

abbrev pub same_severity : SecuritySeverity → SecuritySeverity → Bool
same_severity a b = severity_code a == severity_code b

pub record Principal : Type 0 where
  pub application_id : String
  pub machine_id : String
  pub security_label : String
  pub roles : List String
  pub authenticated : Bool
  pub remote : Bool

pub record Resource : Type 0 where
  pub kind : ResourceKind
  pub identifier : String
  pub policy_id : String

pub record AuthorizationRequest : Type 0 where
  pub principal : Principal
  pub resource : Resource
  pub operation : Operation
  pub action : String

pub record AuthorizationDecision : Type 0 where
  pub decision : Decision
  pub severity : SecuritySeverity
  pub reason : String

pub record AccessRule : Type 0 where
  pub decision : Decision
  pub operations : List Operation
  pub resource_kinds : List ResourceKind
  pub resource_prefixes : List String
  pub principal_ids : List String
  pub machine_ids : List String
  pub roles : List String
  pub require_authenticated : Bool
  pub allow_remote : Bool
  pub reason : String

pub record SecurityPolicy : Type 0 where
  pub production_mode : Bool
  pub remote_diagnostics_allowed : Bool
  pub default_decision : Decision
  pub rules : List AccessRule

pub record SignerTrust : Type 0 where
  pub signer_id : String
  pub key_slot : String
  pub certificate_id : String
  pub minimum_counter : ℕ  -- uint64
  pub revoked : Bool

pub record SecurityEvent : Type 0 where
  pub source : String
  pub category : String
  pub severity : SecuritySeverity
  pub principal_id : String
  pub resource_id : String
  pub operation : Operation
  pub detail : String
  pub count : ℕ  -- uint32
  pub timestamp_ms : ℕ  -- uint64

pub record SecurityEventPolicy : Type 0 where
  pub max_events : ℕ  -- size_t
  pub aggregation_window_ms : ℕ  -- uint64
