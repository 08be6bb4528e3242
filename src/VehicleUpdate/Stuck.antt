-- ===== src/VehicleUpdate/Stuck.antt =====
-- A campaign with two packages for one ECU (vehicle_update_manager.cpp): `ConfirmEcuHealth` finds the
-- first step of the ECU at every call.
use open_autosar.Base.{
  ◌≡◌, refl, Bool, true, false, not, ◌&&◌, ◌||◌, String, str_eq, eq_iff, List, [], ◌∷◌, any_of,
  all_of, find_if, Option, none, some, Option-cases, inl, inr, arith, if◌then◌else◌,
}
use open_autosar.UpdateManagement.{HealthConfirmation}
use open_autosar.VehicleUpdate.{
  CampaignState, same_campaign_state, CampaignStep, VehicleCampaignPlan, VehicleUpdateManager,
}
use open_autosar.VehicleUpdate.Confirmation.{
  is_step_of, is_committed, commit_first, confirmed_campaign, confirm_step, confirm_ecu_health,
}

-- A call of `ConfirmEcuHealth`: the campaign, the ECU and what is confirmed.
abbrev pub Confirm : Type 0
Confirm = String × String × HealthConfirmation

unfoldable pub confirm_each : VehicleUpdateManager → List Confirm → VehicleUpdateManager
confirm_each m [] = m
confirm_each m ((id, ecu, c) ∷ confirms) = confirm_each (confirm_ecu_health m id ecu c).0 confirms

abbrev waits : String → CampaignStep → Bool
waits ecu s = is_step_of ecu s && not (is_committed s)

-- A step of the ECU that is not committed, after another step of that ECU.
unfoldable pub waits_behind : String → List CampaignStep → Bool
waits_behind ecu [] = false
waits_behind ecu (s ∷ steps) =
    let rest = waits_behind ecu steps in if is_step_of ecu s then any_of (waits ecu) steps else rest

abbrev pub is_finished : Option VehicleCampaignPlan → Bool
is_finished none = false
is_finished (some plan) = same_campaign_state plan.state CampaignState.committed

-- What no confirmation changes.
abbrev is_stuck : String → Option VehicleCampaignPlan → Bool
is_stuck ecu none = true
is_stuck ecu (some plan) =
    not (same_campaign_state plan.state CampaignState.committed)
    && (waits_behind ecu plan.steps
        || not (same_campaign_state plan.state CampaignState.awaiting_health_confirmation))

waits-commit_first :
    (ecu other : String) (steps : List CampaignStep)
    → str_eq other ecu ≡ false
    → any_of (waits ecu) (commit_first other steps) ≡ any_of (waits ecu) steps
unfolding commit_first
waits-commit_first ecu other [] h = refl
waits-commit_first ecu other (s ∷ steps) h = ground (
  arith,
  h,
  waits-commit_first ecu other steps h,
  eq_iff s.ecu_id other,
  eq_iff s.ecu_id ecu,
  eq_iff other ecu,
)

waits_behind-commit_first :
    (ecu other : String) (steps : List CampaignStep)
    → waits_behind ecu steps ≡ true
    → waits_behind ecu (commit_first other steps) ≡ true
unfolding waits_behind commit_first
waits_behind-commit_first ecu other [] h = ground (arith, h)
waits_behind-commit_first ecu other (s ∷ steps) h = ground (
  arith,
  h,
  waits_behind-commit_first ecu other steps,
  waits-commit_first ecu other steps,
  eq_iff s.ecu_id other,
  eq_iff s.ecu_id ecu,
  eq_iff other ecu,
)

any_waits :
    (ecu : String) (steps : List CampaignStep)
    → any_of (waits ecu) steps ≡ true
    → all_of is_committed steps ≡ false
any_waits ecu [] h = absurd (ground (arith, h))
any_waits ecu (s ∷ steps) h = ground (arith, h, any_waits ecu steps)

waits_behind-uncommitted :
    (ecu : String) (steps : List CampaignStep)
    → waits_behind ecu steps ≡ true
    → all_of is_committed steps ≡ false
unfolding waits_behind
waits_behind-uncommitted ecu [] h = absurd (ground (arith, h))
waits_behind-uncommitted ecu (s ∷ steps) h =
    ground (arith, h, any_waits ecu steps, waits_behind-uncommitted ecu steps)

confirmed_campaign-stuck :
    (plan : VehicleCampaignPlan) (ecu other : String) (s : CampaignStep)
    → same_campaign_state plan.state CampaignState.committed ≡ false
    → waits_behind ecu plan.steps ≡ true
    → is_stuck ecu (some (confirmed_campaign plan other s)) ≡ true
confirmed_campaign-stuck plan ecu other s h w =
    let kept = waits_behind-commit_first ecu other plan.steps w in
    rw (waits_behind-uncommitted ecu (commit_first other plan.steps) kept, h, kept) refl

confirm_step-stuck :
    (m : VehicleUpdateManager) (plan : VehicleCampaignPlan) (ecu other : String)
    (c : HealthConfirmation)
    → is_stuck ecu m.active_campaign ≡ true
    → same_campaign_state plan.state CampaignState.committed ≡ false
    → waits_behind ecu plan.steps ≡ true
    → is_stuck ecu (confirm_step m plan other c).0.active_campaign ≡ true
unfolding confirm_step
confirm_step-stuck m plan ecu other c g h w =
    elim (Option-cases (find_if (is_step_of other) plan.steps)) [
      | inl r ↦ ground (arith, r, g)
      | inr (s, r) ↦ ground (arith, r, confirmed_campaign-stuck plan ecu other s h w)
    ]

confirm_ecu_health-stuck :
    (m : VehicleUpdateManager) (id ecu other : String) (c : HealthConfirmation)
    → is_stuck ecu m.active_campaign ≡ true
    → is_stuck ecu (confirm_ecu_health m id other c).0.active_campaign ≡ true
unfolding confirm_ecu_health
confirm_ecu_health-stuck m id ecu other c g = elim (Option-cases m.active_campaign) [
  | inl n ↦ ground (arith, n, g)
  | inr (plan, a) ↦
      let stuck : is_stuck ecu (some plan) ≡ true = ground (arith, a, g) in
      ground (arith, a, g, stuck, confirm_step-stuck m plan ecu other c g)
]

confirm_each-stuck :
    (m : VehicleUpdateManager) (ecu : String) (confirms : List Confirm)
    → is_stuck ecu m.active_campaign ≡ true
    → is_stuck ecu (confirm_each m confirms).active_campaign ≡ true
unfolding confirm_each
confirm_each-stuck m ecu [] g = g
confirm_each-stuck m ecu ((id, other, c) ∷ confirms) g =
    confirm_each-stuck (confirm_ecu_health m id other c).0 ecu confirms
      (confirm_ecu_health-stuck m id ecu other c g)

stuck_unfinished :
    (ecu : String) (o : Option VehicleCampaignPlan) → is_stuck ecu o ≡ true → is_finished o ≡ false
stuck_unfinished ecu none h = refl
stuck_unfinished ecu (some plan) h = ground (arith, h)

-- While a campaign awaits health confirmations and has, after another step of an ECU, a step of the
-- same ECU that is not committed, no sequence of confirmations commits the campaign.
pub confirm_each_unfinished :
    (m : VehicleUpdateManager) (plan : VehicleCampaignPlan) (ecu : String) (confirms : List Confirm)
    → m.active_campaign ≡ some plan
    → plan.state ≡ CampaignState.awaiting_health_confirmation
    → waits_behind ecu plan.steps ≡ true
    → is_finished (confirm_each m confirms).active_campaign ≡ false
confirm_each_unfinished m plan ecu confirms a s w =
    stuck_unfinished ecu (confirm_each m confirms).active_campaign
      (confirm_each-stuck m ecu confirms (rw (a, s, w) refl))
