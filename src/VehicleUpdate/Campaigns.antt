-- ===== src/VehicleUpdate/Campaigns.antt =====
-- vehicle_update_manager.cpp: registration and planning. Each returns the manager
-- after the call.
use open_autosar.Base.{
  ℕ, ◌+◌, Bool, true, ◌||◌, String, is_empty, str_eq, text_less, List, [], ◌∷◌, ◌++◌, Option, none,
  some, find, put, Dict, sort_by, u32, if◌then◌else◌, Result, from_value, from_error,
}
use open_autosar.UpdateManagement.{MachineState}
use open_autosar.VehicleUpdate.{
  EcuAvailability, CampaignState, StepState, EcuInventory, CampaignPackage, VehicleCampaignRequest,
  CampaignStep, VehicleCampaignAudit, VehicleCampaignPlan, VehicleUpdatePolicy,
  VehicleUpdateManager,
}
use open_autosar.VehicleUpdate.Eligibility.{make_error, validate_request}

abbrev pub new : VehicleUpdatePolicy → VehicleUpdateManager
new p = record { policy = p; inventory = []; active_campaign = none }

unfoldable pub register_ecu :
    VehicleUpdateManager → EcuInventory → VehicleUpdateManager × Result Bool
register_ecu m ecu =
    if is_empty ecu.ecu_id || is_empty ecu.machine_id
    then (m, from_error (make_error "ECU inventory record is incomplete"))
    else (record m { inventory = put ecu.ecu_id ecu m.inventory }, from_value true)

-- A record that `std::map::operator[]` makes.
abbrev pub default_ecu : EcuInventory
default_ecu = record {
  ecu_id = "";
  machine_id = "";
  availability = EcuAvailability.online;
  machine_state = MachineState.startup;
  rollback_supported = true;
  inactive_slot_free_bytes = 0;
  installed_versions = [];
}

abbrev pub ecu_or_default : Option EcuInventory → EcuInventory
ecu_or_default none = default_ecu
ecu_or_default (some ecu) = ecu

-- A write to `inventory_[ecu_id]`.
abbrev pub set_availability : EcuAvailability → String → Dict EcuInventory → Dict EcuInventory
set_availability availability id inventory =
    put id (record (ecu_or_default (find id inventory)) { availability = availability }) inventory

abbrev pub install_version : String → String → EcuInventory → EcuInventory
install_version cluster version ecu = record ecu {
  installed_versions = put cluster version ecu.installed_versions;
}

abbrev pub set_version : CampaignStep → Dict EcuInventory → Dict EcuInventory
set_version step inventory =
    put step.ecu_id
      (install_version step.cluster_package.cluster_name step.cluster_package.version
        (ecu_or_default (find step.ecu_id inventory)))
      inventory

abbrev pub audit_entry : CampaignState → String → String → String → VehicleCampaignAudit
audit_entry state message ecu cluster = record {
  state = state;
  ecu_id = ecu;
  cluster_name = cluster;
  message = message;
}

-- `Audit` while a campaign is active, which it is at every call.
abbrev pub audit :
    CampaignState → String → String → String → VehicleCampaignPlan → VehicleCampaignPlan
audit state message ecu cluster plan = record plan {
  audit = plan.audit ++ (audit_entry state message ecu cluster ∷ []);
}

abbrev pub item_before : CampaignPackage → CampaignPackage → Bool
item_before left right =
    if str_eq left.ecu_id right.ecu_id
    then text_less left.cluster_package.cluster_name right.cluster_package.cluster_name
    else text_less left.ecu_id right.ecu_id

abbrev pub ready_step : ℕ → CampaignPackage → CampaignStep
ready_step n item = record {
  sequence = n;
  ecu_id = item.ecu_id;
  cluster_package = item.cluster_package;
  required_activation_state = item.required_activation_state;
  state = StepState.ready;
  reason = "ready";
}

-- The loop over the sorted packages, with the next sequence number.
unfoldable pub ready_steps : ℕ → List CampaignPackage → List CampaignStep
ready_steps n [] = []
ready_steps n (item ∷ items) = ready_step n item ∷ ready_steps (u32 (n + 1)) items

abbrev pub empty_campaign : String → CampaignState → VehicleCampaignPlan
empty_campaign id state = record { campaign_id = id; state = state; steps = []; audit = [] }

abbrev pub planned_campaign : VehicleCampaignRequest → VehicleCampaignPlan
planned_campaign request =
    audit CampaignState.planned "vehicle update campaign planned" "" "" (record {
      campaign_id = request.campaign_id;
      state = CampaignState.planned;
      steps = ready_steps 1 (sort_by item_before request.packages);
      audit = [];
    })

unfoldable pub plan_campaign :
    VehicleUpdateManager
    → VehicleCampaignRequest
    → VehicleUpdateManager × Result VehicleCampaignPlan
plan_campaign m request = elim (validate_request m request) [
  | from_error e ↦ (
    record m {
      active_campaign = some (
          audit CampaignState.rejected e.message "" ""
            (empty_campaign request.campaign_id CampaignState.rejected));
    },
    from_error e,
  )
  | from_value _ ↦ (
    record m { active_campaign = some (planned_campaign request) },
    from_value (planned_campaign request),
  )
]

abbrev pub set_step : StepState → String → CampaignStep → CampaignStep
set_step state reason step = record step { state = state; reason = reason }

unfoldable pub set_availabilities :
    EcuAvailability → List CampaignStep → Dict EcuInventory → Dict EcuInventory
set_availabilities availability [] inventory = inventory
set_availabilities availability (s ∷ steps) inventory =
    set_availabilities availability steps (set_availability availability s.ecu_id inventory)

abbrev pub inventory_for : VehicleUpdateManager → String → Option EcuInventory
inventory_for m ecu = find ecu m.inventory
