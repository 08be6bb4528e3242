-- ===== src/VehicleUpdate/Examples.antt =====
-- The theorems on vehicle campaigns at concrete inputs.
use open_autosar.Base.{
  ◌≡◌, refl, true, false, String, List, [], ◌∷◌, none, some, sort_by, insert_by, find, concat,
  from_value,
}
use open_autosar.Health.{HealthState}
use open_autosar.UpdateManagement.{MachineState, HealthConfirmation}
use open_autosar.VehicleUpdate.{
  EcuAvailability, EcuInventory, CampaignPackage, VehicleUpdatePolicy, VehicleCampaignRequest,
  VehicleUpdateManager,
}
use open_autosar.VehicleUpdate.Eligibility.{
  validate_request, validate_packages, validate_package, validate_target, is_trusted_signer,
  are_dependencies_installed, is_version_upgrade,
}
use open_autosar.VehicleUpdate.Campaigns.{
  new, item_before, ready_steps, planned_campaign, plan_campaign,
}
use open_autosar.VehicleUpdate.Activation.{activated_campaign}
use open_autosar.VehicleUpdate.Calls.{Call, registers, plans, activates, confirms, aborts, run}
use open_autosar.VehicleUpdate.StepStates.{is_coherent}
use open_autosar.VehicleUpdate.Coherence.{run_coherent}
use open_autosar.VehicleUpdate.Planning.{Planned, plan_campaign-Planned}
use open_autosar.VehicleUpdate.Stuck.{
  waits_behind, confirm_each, is_finished, confirm_each_unfinished,
}

abbrev policy : VehicleUpdatePolicy
policy = record {
  max_steps = 16;
  require_all_targets_online = true;
  require_rollback_capable = true;
  require_sbom = true;
  require_provenance = true;
  require_health_confirmation = true;
  trusted_signers = "oem" ∷ [];
}

abbrev ecu : EcuInventory
ecu = record {
  ecu_id = "zone";
  machine_id = "m1";
  availability = EcuAvailability.online;
  machine_state = MachineState.startup;
  rollback_supported = true;
  inactive_slot_free_bytes = 4096;
  installed_versions = ("body", "1.0") ∷ [];
}

abbrev package_of : String → CampaignPackage
package_of name = record {
  ecu_id = "zone";
  cluster_package = record {
    cluster_name = name;
    version = "1.1";
    signer_id = "oem";
    signature_verified = true;
    compatible_platform = true;
    required_free_bytes = 1024;
    dependencies = "body" ∷ [];
    manifests_present = true;
    sbom_present = true;
    provenance_present = true;
  };
  required_activation_state = MachineState.update_allowed;
}

-- Two clusters of one ECU.
abbrev request : VehicleCampaignRequest
request = record { campaign_id = "c1"; packages = package_of "light" ∷ package_of "body" ∷ [] }

abbrev all_well : HealthConfirmation
all_well = record {
  execution_started = true;
  platform_health = HealthState.healthy;
  diagnostics_available = true;
  dashboard_available = true;
}

abbrev calls : List Call
calls =
    registers ecu
    ∷ plans request
    ∷ activates "c1" MachineState.update_allowed
    ∷ confirms "c1" "zone" all_well
    ∷ aborts "c1" "operator"
    ∷ []

run_coherent_example : is_coherent (run (new policy) calls).active_campaign ≡ true
run_coherent_example = run_coherent policy calls

abbrev at_start : VehicleUpdateManager
at_start = record { policy = policy; inventory = ("zone", ecu) ∷ []; active_campaign = none }

request_planned : (plan_campaign at_start request).1 ≡ from_value (planned_campaign request)
unfolding plan_campaign validate_request validate_packages validate_package validate_target
    is_trusted_signer are_dependencies_installed is_version_upgrade find concat
request_planned = refl

plan_campaign-Planned_example :
    Planned at_start request (planned_campaign request) (sort_by item_before request.packages)
plan_campaign-Planned_example =
    plan_campaign-Planned at_start request (planned_campaign request) request_planned

-- After the activation.
abbrev at_activation : VehicleUpdateManager
at_activation = record at_start {
  active_campaign = some (activated_campaign policy (planned_campaign request));
}

behind : waits_behind "zone" (activated_campaign policy (planned_campaign request)).steps ≡ true
unfolding waits_behind sort_by insert_by ready_steps
behind = refl

confirm_each_unfinished_example :
    is_finished
      (confirm_each at_activation
        (("c1", "zone", all_well) ∷ ("c1", "zone", all_well) ∷ [])).active_campaign
    ≡ false
confirm_each_unfinished_example =
    confirm_each_unfinished at_activation (activated_campaign policy (planned_campaign request))
      "zone" (("c1", "zone", all_well) ∷ ("c1", "zone", all_well) ∷ []) refl refl behind
