-- ===== src/VehicleUpdate/Coherence.antt =====
-- The state of a campaign and the states of its steps (vehicle_update_manager.cpp).
use open_autosar.Base.{
  ◌≡◌, refl, Bool, true, false, ◌||◌, String, List, [], ◌∷◌, is_nil, all_of, find_if, some,
  Option-cases, Bool-cases, inl, inr, arith,
}
use open_autosar.UpdateManagement.{MachineState, HealthConfirmation}
use open_autosar.VehicleUpdate.{
  CampaignState, same_campaign_state, StepState, CampaignStep, VehicleCampaignPlan,
  VehicleUpdatePolicy, VehicleUpdateManager,
}
use open_autosar.VehicleUpdate.Eligibility.{health_confirmed}
use open_autosar.VehicleUpdate.Campaigns.{new, register_ecu, set_step}
use open_autosar.VehicleUpdate.Activation.{activate_campaign}
use open_autosar.VehicleUpdate.Confirmation.{
  is_step_of, is_committed, commit_first, rolled_back_step, confirmed_campaign, confirm_step,
  confirm_ecu_health, abort_and_rollback,
}
use open_autosar.VehicleUpdate.Calls.{
  Call, registers, plans, activates, confirms, aborts, step, run,
}
use open_autosar.VehicleUpdate.StepStates.{
  is_ready, is_rolled_back, is_under_way, steps_fit, is_coherent, all_of-map,
  plan_campaign-coherent, activate_steps-coherent,
}

commit_first-under_way :
    (ecu : String) (steps : List CampaignStep)
    → all_of is_under_way steps ≡ true
    → all_of is_under_way (commit_first ecu steps) ≡ true
unfolding commit_first
commit_first-under_way ecu [] h = refl
commit_first-under_way ecu (s ∷ steps) h = elim (Bool-cases (is_step_of ecu s)) [
  | inl t ↦ rw (t) (ground (arith, h))
  | inr f ↦ rw (f) (ground (arith, h, commit_first-under_way ecu steps))
]

commit_first-is_nil :
    (ecu : String) (steps : List CampaignStep) → is_nil (commit_first ecu steps) ≡ is_nil steps
unfolding commit_first
commit_first-is_nil ecu [] = refl
commit_first-is_nil ecu (s ∷ steps) = ground arith

not_all-is_nil :
    (p : CampaignStep → Bool) (steps : List CampaignStep)
    → all_of p steps ≡ false
    → is_nil steps ≡ false
not_all-is_nil p [] h = absurd (ground (arith, h))
not_all-is_nil p (s ∷ steps) h = refl

confirmed_campaign-coherent :
    (plan : VehicleCampaignPlan) (ecu : String) (s : CampaignStep)
    → plan.state ≡ CampaignState.awaiting_health_confirmation
    → all_of is_under_way plan.steps ≡ true
    → is_nil plan.steps ≡ false
    → is_coherent (some (confirmed_campaign plan ecu s)) ≡ true
confirmed_campaign-coherent plan ecu s st h k =
    elim (Bool-cases (all_of is_committed (commit_first ecu plan.steps))) [
      | inl all ↦ rw (all, commit_first-is_nil ecu plan.steps, k, all) refl
      | inr left ↦ rw (left, st, commit_first-under_way ecu plan.steps h, left) refl
    ]

confirm_step-coherent :
    (m : VehicleUpdateManager) (plan : VehicleCampaignPlan) (ecu : String) (c : HealthConfirmation)
    → is_coherent m.active_campaign ≡ true
    → plan.state ≡ CampaignState.awaiting_health_confirmation
    → all_of is_under_way plan.steps ≡ true
    → all_of is_committed plan.steps ≡ false
    → is_coherent (confirm_step m plan ecu c).0.active_campaign ≡ true
unfolding confirm_step
confirm_step-coherent m plan ecu c g st h k =
    elim (Option-cases (find_if (is_step_of ecu) plan.steps)) [
      | inl r ↦ ground (arith, r, g)
      | inr (s, r) ↦ elim (Bool-cases (health_confirmed c)) [
        | inr f ↦
            ground
              (arith, r, f, all_of-map is_rolled_back (rolled_back_step ecu) plan.steps (λ s. refl))
        | inl t ↦ ground (
          arith,
          r,
          t,
          confirmed_campaign-coherent plan ecu s st h (not_all-is_nil is_committed plan.steps k),
        )
      ]
    ]

-- What a plan that awaits confirmations, or one that can be activated, says of its steps.
pub awaiting_eq :
    (state : CampaignState)
    → same_campaign_state state CampaignState.awaiting_health_confirmation ≡ true
    → state ≡ CampaignState.awaiting_health_confirmation
awaiting_eq CampaignState.idle h = absurd (ground (arith, h))
awaiting_eq CampaignState.planned h = absurd (ground (arith, h))
awaiting_eq CampaignState.awaiting_activation h = absurd (ground (arith, h))
awaiting_eq CampaignState.awaiting_health_confirmation h = refl
awaiting_eq CampaignState.committed h = absurd (ground (arith, h))
awaiting_eq CampaignState.rolled_back h = absurd (ground (arith, h))
awaiting_eq CampaignState.rejected h = absurd (ground (arith, h))
awaiting_eq CampaignState.failed h = absurd (ground (arith, h))

awaiting_fits :
    (plan : VehicleCampaignPlan)
    → same_campaign_state plan.state CampaignState.awaiting_health_confirmation ≡ true
    → steps_fit plan.state plan.steps ≡ true
    → (plan.state ≡ CampaignState.awaiting_health_confirmation)
      × (all_of is_under_way plan.steps ≡ true)
      × (all_of is_committed plan.steps ≡ false)
awaiting_fits plan h f =
    let state = awaiting_eq plan.state h in
    (state, ground (arith, state, f), ground (arith, state, f))

planned_fits :
    (plan : VehicleCampaignPlan)
    → (same_campaign_state plan.state CampaignState.planned
        || same_campaign_state plan.state CampaignState.awaiting_activation)
      ≡ true
    → steps_fit plan.state plan.steps ≡ true
    → (all_of is_ready plan.steps ≡ true) × (is_nil plan.steps ≡ false)
planned_fits plan h f = (ground (arith, h, f), ground (arith, h, f))

activate_campaign-coherent :
    (m : VehicleUpdateManager) (id : String) (vehicle : MachineState)
    → is_coherent m.active_campaign ≡ true
    → is_coherent (activate_campaign m id vehicle).0.active_campaign ≡ true
unfolding activate_campaign
activate_campaign-coherent m id vehicle h = elim (Option-cases m.active_campaign) [
  | inl n ↦ ground (arith, n, h)
  | inr (plan, a) ↦
      let fits : steps_fit plan.state plan.steps ≡ true = ground (arith, a, h) in
      let next = activate_steps-coherent m plan vehicle in
      ground (arith, a, h, planned_fits plan, fits, next)
]

confirm_ecu_health-coherent :
    (m : VehicleUpdateManager) (id ecu : String) (c : HealthConfirmation)
    → is_coherent m.active_campaign ≡ true
    → is_coherent (confirm_ecu_health m id ecu c).0.active_campaign ≡ true
unfolding confirm_ecu_health
confirm_ecu_health-coherent m id ecu c h = elim (Option-cases m.active_campaign) [
  | inl n ↦ ground (arith, n, h)
  | inr (plan, a) ↦
      let fits : steps_fit plan.state plan.steps ≡ true = ground (arith, a, h) in
      ground (arith, a, h, awaiting_fits plan, fits, confirm_step-coherent m plan ecu c h)
]

abort_and_rollback-coherent :
    (m : VehicleUpdateManager) (id reason : String)
    → is_coherent m.active_campaign ≡ true
    → is_coherent (abort_and_rollback m id reason).0.active_campaign ≡ true
unfolding abort_and_rollback
abort_and_rollback-coherent m id reason h = elim (Option-cases m.active_campaign) [
  | inl n ↦ ground (arith, n, h)
  | inr (plan, a) ↦ ground (
    arith,
    a,
    h,
    all_of-map is_rolled_back (set_step StepState.rolled_back reason) plan.steps (λ s. refl),
  )
]

step-coherent :
    (m : VehicleUpdateManager) (call : Call)
    → is_coherent m.active_campaign ≡ true
    → is_coherent (step m call).active_campaign ≡ true
unfolding step register_ecu
step-coherent m (registers ecu) h = ground (arith, h)
step-coherent m (plans request) h = plan_campaign-coherent m request
step-coherent m (activates id vehicle) h = activate_campaign-coherent m id vehicle h
step-coherent m (confirms id ecu c) h = confirm_ecu_health-coherent m id ecu c h
step-coherent m (aborts id reason) h = abort_and_rollback-coherent m id reason h

run_from :
    (m : VehicleUpdateManager) (calls : List Call)
    → is_coherent m.active_campaign ≡ true
    → is_coherent (run m calls).active_campaign ≡ true
unfolding run
run_from m [] h = h
run_from m (call ∷ calls) h = run_from (step m call) calls (step-coherent m call h)

-- After any sequence of calls of a new manager, the state of the active campaign fits its steps: a
-- planned one has steps and all are ready, one that awaits health confirmations has all its steps
-- activated or committed and not all committed, a committed one has steps and all are committed, of
-- one that is rolled back all are, of a rejected one all are ready, and it is never idle or failed.
pub run_coherent :
    (policy : VehicleUpdatePolicy) (calls : List Call)
    → is_coherent (run (new policy) calls).active_campaign ≡ true
run_coherent policy calls = run_from (new policy) calls refl
