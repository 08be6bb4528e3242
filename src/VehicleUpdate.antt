-- ===== src/VehicleUpdate.antt =====
-- bsw/runtime/vehicle-update-management: the data of vehicle_update_manager.h.
pub mod Eligibility
pub mod Campaigns
pub mod Activation
pub mod Confirmation
pub mod Calls
pub mod StepStates
pub mod Coherence
pub mod Planning
pub mod Stuck
pub mod Examples
use open_autosar.Base.{ℕ, ◌==◌, Bool, String, List, Option, Dict}
use open_autosar.UpdateManagement.{MachineState, SoftwareClusterPackage}

pub data EcuAvailability : Type 0 where
  online offline updating recovery_required : EcuAvailability

abbrev pub is_online : EcuAvailability → Bool
is_online online = Bool.true
is_online offline = Bool.false
is_online updating = Bool.false
is_online recovery_required = Bool.false

pub data CampaignState : Type 0 where
  idle planned awaiting_activation awaiting_health_confirmation : CampaignState
  committed rolled_back rejected failed : CampaignState

abbrev pub campaign_code : CampaignState → ℕ
campaign_code idle = 0
campaign_code planned = 1
campaign_code awaiting_activation = 2
campaign_code awaiting_health_confirmation = 3
campaign_code committed = 4
campaign_code rolled_back = 5
campaign_code rejected = 6
campaign_code failed = 7

abbrev pub same_campaign_state : CampaignState → CampaignState → Bool
same_campaign_state a b = campaign_code a == campaign_code b

pub data StepState : Type 0 where
  pending ready activated committed rolled_back blocked failed : StepState

abbrev pub step_code : StepState → ℕ
step_code pending = 0
step_code ready = 1
step_code activated = 2
step_code committed = 3
step_code rolled_back = 4
step_code blocked = 5
step_code failed = 6

abbrev pub same_step_state : StepState → StepState → Bool
same_step_state a b = step_code a == step_code b

pub record EcuInventory : Type 0 where
  pub ecu_id : String
  pub machine_id : String
  pub availability : EcuAvailability
  pub machine_state : MachineState
  pub rollback_supported : Bool
  pub inactive_slot_free_bytes : ℕ  -- size_t
  pub installed_versions : Dict String

pub record CampaignPackage : Type 0 where
  pub ecu_id : String
  pub cluster_package : SoftwareClusterPackage
  pub required_activation_state : MachineState

pub record VehicleUpdatePolicy : Type 0 where
  pub max_steps : ℕ  -- size_t
  pub require_all_targets_online : Bool
  pub require_rollback_capable : Bool
  pub require_sbom : Bool
  pub require_provenance : Bool
  pub require_health_confirmation : Bool
  pub trusted_signers : List String

pub record VehicleCampaignRequest : Type 0 where
  pub campaign_id : String
  pub packages : List CampaignPackage

pub record CampaignStep : Type 0 where
  pub sequence : ℕ  -- uint32
  pub ecu_id : String
  pub cluster_package : SoftwareClusterPackage
  pub required_activation_state : MachineState
  pub state : StepState
  pub reason : String

pub record VehicleCampaignAudit : Type 0 where
  pub state : CampaignState
  pub ecu_id : String
  pub cluster_name : String
  pub message : String

pub record VehicleCampaignPlan : Type 0 where
  pub campaign_id : String
  pub state : CampaignState
  pub steps : List CampaignStep
  pub audit : List VehicleCampaignAudit

pub record VehicleUpdateManager : Type 0 where
  pub policy : VehicleUpdatePolicy
  pub inventory : Dict EcuInventory
  pub active_campaign : Option VehicleCampaignPlan
