-- ===== src/VehicleUpdate/Activation.antt =====
-- vehicle_update_manager.cpp: `ActivateCampaign`.
use open_autosar.Base.{
  not, ◌&&◌, String, str_eq, List, [], ◌∷◌, map, Option, none, some, Dict, find_if, if◌then◌else◌,
  Result, from_value, from_error,
}
use open_autosar.UpdateManagement.{MachineState, same_machine_state}
use open_autosar.VehicleUpdate.{
  EcuAvailability, CampaignState, same_campaign_state, StepState, EcuInventory, CampaignStep,
  VehicleCampaignPlan, VehicleUpdatePolicy, VehicleUpdateManager,
}
use open_autosar.VehicleUpdate.Eligibility.{make_error}
use open_autosar.VehicleUpdate.Campaigns.{
  set_availability, set_version, audit, set_step, set_availabilities,
}

-- The first step whose precondition the vehicle does not meet.
abbrev pub unmet : MachineState → List CampaignStep → Option CampaignStep
unmet vehicle steps =
    find_if (λ (s : CampaignStep). not (same_machine_state vehicle s.required_activation_state))
      steps

unfoldable pub commit_inventory : List CampaignStep → Dict EcuInventory → Dict EcuInventory
commit_inventory [] inventory = inventory
commit_inventory (s ∷ steps) inventory =
    commit_inventory steps
      (set_version s (set_availability EcuAvailability.online s.ecu_id inventory))

-- The second loop over the steps writes over the first, if it runs.
abbrev pub activated_campaign : VehicleUpdatePolicy → VehicleCampaignPlan → VehicleCampaignPlan
activated_campaign policy plan =
    let state =
      if policy.require_health_confirmation
      then CampaignState.awaiting_health_confirmation
      else CampaignState.committed in
    audit state "vehicle update activation requested" "" "" (record plan {
      state = state;
      steps =
          if policy.require_health_confirmation
          then map (set_step StepState.activated "activation requested") plan.steps
          else map (set_step StepState.committed "committed without health confirmation")
              plan.steps;
    })

abbrev pub activated_inventory :
    VehicleUpdatePolicy → List CampaignStep → Dict EcuInventory → Dict EcuInventory
activated_inventory policy steps inventory =
    let updating = set_availabilities EcuAvailability.updating steps inventory in
    if policy.require_health_confirmation then updating else commit_inventory steps updating

unfoldable pub activate_steps :
    VehicleUpdateManager
    → VehicleCampaignPlan
    → MachineState
    → VehicleUpdateManager × Result VehicleCampaignPlan
activate_steps m plan vehicle = elim (unmet vehicle plan.steps) [
  | some s ↦ (
    record m {
      active_campaign = some (
          audit CampaignState.rejected "vehicle activation precondition failed" s.ecu_id
            s.cluster_package.cluster_name (record plan { state = CampaignState.rejected }));
    },
    from_error (make_error "vehicle activation precondition failed"),
  )
  | none ↦ (
    record m {
      inventory = activated_inventory m.policy plan.steps m.inventory;
      active_campaign = some (activated_campaign m.policy plan);
    },
    from_value (activated_campaign m.policy plan),
  )
]

unfoldable pub activate_campaign :
    VehicleUpdateManager → String → MachineState → VehicleUpdateManager × Result VehicleCampaignPlan
activate_campaign m campaign_id vehicle = elim m.active_campaign [
  | none ↦ (m, from_error (make_error "campaign is not active"))
  | some plan ↦
      if not (str_eq plan.campaign_id campaign_id)
      then (m, from_error (make_error "campaign is not active"))
      else if not (same_campaign_state plan.state CampaignState.planned)
          && not (same_campaign_state plan.state CampaignState.awaiting_activation)
      then (m, from_error (make_error "campaign cannot be activated from current state"))
      else activate_steps m plan vehicle
]
