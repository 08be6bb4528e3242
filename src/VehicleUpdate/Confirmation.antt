-- ===== src/VehicleUpdate/Confirmation.antt =====
-- vehicle_update_manager.cpp: `ConfirmEcuHealth` and `AbortAndRollback`.
use open_autosar.Base.{
  Bool, not, String, is_empty, str_eq, List, [], ◌∷◌, map, all_of, none, some, find_if,
  if◌then◌else◌, Result, from_value, from_error,
}
use open_autosar.UpdateManagement.{HealthConfirmation}
use open_autosar.VehicleUpdate.{
  EcuAvailability, CampaignState, same_campaign_state, StepState, same_step_state, CampaignStep,
  VehicleCampaignPlan, VehicleUpdateManager,
}
use open_autosar.VehicleUpdate.Eligibility.{make_error, health_confirmed}
use open_autosar.VehicleUpdate.Campaigns.{
  set_availability, set_version, audit, set_step, set_availabilities,
}

abbrev pub is_step_of : String → CampaignStep → Bool
is_step_of ecu s = str_eq s.ecu_id ecu

abbrev pub is_committed : CampaignStep → Bool
is_committed s = same_step_state s.state StepState.committed

-- `step->state = ...` through the iterator of `find_if`.
unfoldable pub commit_first : String → List CampaignStep → List CampaignStep
commit_first ecu [] = []
commit_first ecu (s ∷ steps) =
    if is_step_of ecu s
    then set_step StepState.committed "health confirmed" s ∷ steps
    else s ∷ commit_first ecu steps

abbrev pub rolled_back_step : String → CampaignStep → CampaignStep
rolled_back_step ecu s =
    set_step StepState.rolled_back
      (if is_step_of ecu s then "health confirmation failed" else "coordinated rollback") s

abbrev pub failed_campaign : VehicleCampaignPlan → String → VehicleCampaignPlan
failed_campaign plan ecu =
    audit CampaignState.rolled_back "vehicle campaign rolled back" ecu "" (record plan {
      steps = map (rolled_back_step ecu) plan.steps;
      state = CampaignState.rolled_back;
    })

abbrev pub with_step : VehicleCampaignPlan → String → CampaignStep → VehicleCampaignPlan
with_step plan ecu s =
    audit CampaignState.awaiting_health_confirmation "ECU health confirmed" s.ecu_id
      s.cluster_package.cluster_name (record plan { steps = commit_first ecu plan.steps })

abbrev pub confirmed_campaign : VehicleCampaignPlan → String → CampaignStep → VehicleCampaignPlan
confirmed_campaign plan ecu s =
    if all_of is_committed (commit_first ecu plan.steps)
    then audit CampaignState.committed "vehicle campaign committed" "" ""
        (record (with_step plan ecu s) { state = CampaignState.committed })
    else with_step plan ecu s

unfoldable pub confirm_step :
    VehicleUpdateManager
    → VehicleCampaignPlan
    → String
    → HealthConfirmation
    → VehicleUpdateManager × Result VehicleCampaignPlan
confirm_step m plan ecu confirmation = elim (find_if (is_step_of ecu) plan.steps) [
  | none ↦ (m, from_error (make_error "ECU is not part of campaign"))
  | some s ↦
      if not (health_confirmed confirmation)
      then (
        record m {
          inventory = set_availabilities EcuAvailability.recovery_required plan.steps m.inventory;
          active_campaign = some (failed_campaign plan ecu);
        },
        from_value (failed_campaign plan ecu),
      )
      else (
        record m {
          inventory = set_version s (set_availability EcuAvailability.online s.ecu_id m.inventory);
          active_campaign = some (confirmed_campaign plan ecu s);
        },
        from_value (confirmed_campaign plan ecu s),
      )
]

unfoldable pub confirm_ecu_health :
    VehicleUpdateManager
    → String
    → String
    → HealthConfirmation
    → VehicleUpdateManager × Result VehicleCampaignPlan
confirm_ecu_health m campaign_id ecu confirmation = elim m.active_campaign [
  | none ↦ (m, from_error (make_error "campaign is not active"))
  | some plan ↦
      if not (str_eq plan.campaign_id campaign_id)
      then (m, from_error (make_error "campaign is not active"))
      else if not (same_campaign_state plan.state CampaignState.awaiting_health_confirmation)
      then (m, from_error (make_error "campaign is not waiting for health confirmation"))
      else confirm_step m plan ecu confirmation
]

abbrev pub aborted_campaign : VehicleCampaignPlan → String → VehicleCampaignPlan
aborted_campaign plan reason = audit CampaignState.rolled_back reason "" "" (record plan {
  steps = map (set_step StepState.rolled_back reason) plan.steps;
  state = CampaignState.rolled_back;
})

unfoldable pub abort_and_rollback :
    VehicleUpdateManager → String → String → VehicleUpdateManager × Result VehicleCampaignPlan
abort_and_rollback m campaign_id reason =
    if is_empty reason
    then (m, from_error (make_error "rollback reason is empty"))
    else elim m.active_campaign [
      | none ↦ (m, from_error (make_error "campaign is not active"))
      | some plan ↦
          if not (str_eq plan.campaign_id campaign_id)
          then (m, from_error (make_error "campaign is not active"))
          else (
            record m {
              inventory =
                  set_availabilities EcuAvailability.recovery_required plan.steps m.inventory;
              active_campaign = some (aborted_campaign plan reason);
            },
            from_value (aborted_campaign plan reason),
          )
    ]
