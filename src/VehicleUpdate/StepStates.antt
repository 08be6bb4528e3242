-- ===== src/VehicleUpdate/StepStates.antt =====
-- What a campaign says of its steps, and that planning and activation keep to it
-- (vehicle_update_manager.cpp).
use open_autosar.Base.{
  ◌≡◌, refl, Bool, true, false, not, ◌&&◌, ◌||◌, String, List, [], ◌∷◌, map, is_nil, all_of,
  sort_by, insert_by, Option, none, some, Option-cases, Bool-cases, Result-cases, inl, inr, arith,
  ℕ, ◌+◌, u32,
}
use open_autosar.UpdateManagement.{MachineState}
use open_autosar.VehicleUpdate.{
  CampaignState, StepState, same_step_state, CampaignPackage, VehicleCampaignRequest, CampaignStep,
  VehicleCampaignPlan, VehicleUpdateManager,
}
use open_autosar.VehicleUpdate.Eligibility.{validate_request}
use open_autosar.VehicleUpdate.Campaigns.{item_before, ready_steps, plan_campaign, set_step}
use open_autosar.VehicleUpdate.Activation.{unmet, activate_steps}
use open_autosar.VehicleUpdate.Confirmation.{is_committed}

abbrev pub is_ready : CampaignStep → Bool
is_ready s = same_step_state s.state StepState.ready

abbrev pub is_rolled_back : CampaignStep → Bool
is_rolled_back s = same_step_state s.state StepState.rolled_back

abbrev pub is_under_way : CampaignStep → Bool
is_under_way s = same_step_state s.state StepState.activated || is_committed s

-- What the state of a campaign says about its steps.
abbrev pub steps_fit : CampaignState → List CampaignStep → Bool
steps_fit CampaignState.idle steps = false
steps_fit CampaignState.planned steps = not (is_nil steps) && all_of is_ready steps
steps_fit CampaignState.awaiting_activation steps = not (is_nil steps) && all_of is_ready steps
steps_fit CampaignState.awaiting_health_confirmation steps =
    all_of is_under_way steps && not (all_of is_committed steps)
steps_fit CampaignState.committed steps = not (is_nil steps) && all_of is_committed steps
steps_fit CampaignState.rolled_back steps = all_of is_rolled_back steps
steps_fit CampaignState.rejected steps = all_of is_ready steps
steps_fit CampaignState.failed steps = false

abbrev pub is_coherent : Option VehicleCampaignPlan → Bool
is_coherent none = true
is_coherent (some plan) = steps_fit plan.state plan.steps

pub all_of-map :
    (p : CampaignStep → Bool) (f : CampaignStep → CampaignStep) (steps : List CampaignStep)
    → ((s : CampaignStep) → p (f s) ≡ true)
    → all_of p (map f steps) ≡ true
all_of-map p f [] h = refl
all_of-map p f (s ∷ steps) h = ground (arith, h s, all_of-map p f steps h)

ready_steps-ready :
    (n : ℕ) (items : List CampaignPackage) → all_of is_ready (ready_steps n items) ≡ true
unfolding ready_steps
ready_steps-ready n [] = refl
ready_steps-ready n (item ∷ items) = ready_steps-ready (u32 (n + 1)) items

ready_steps-is_nil :
    (n : ℕ) (items : List CampaignPackage) → is_nil (ready_steps n items) ≡ is_nil items
unfolding ready_steps
ready_steps-is_nil n [] = refl
ready_steps-is_nil n (item ∷ items) = refl

insert_by-is_nil :
    (x : CampaignPackage) (items : List CampaignPackage)
    → is_nil (insert_by item_before x items) ≡ false
unfolding insert_by
insert_by-is_nil x [] = refl
insert_by-is_nil x (y ∷ ys) = ground arith

sort_by-is_nil : (items : List CampaignPackage) → is_nil (sort_by item_before items) ≡ is_nil items
unfolding sort_by
sort_by-is_nil [] = refl
sort_by-is_nil (x ∷ xs) = insert_by-is_nil x (sort_by item_before xs)

pub plan_campaign-coherent :
    (m : VehicleUpdateManager) (request : VehicleCampaignRequest)
    → is_coherent (plan_campaign m request).0.active_campaign ≡ true
unfolding plan_campaign validate_request
plan_campaign-coherent m request = elim (Result-cases (validate_request m request)) [
  | inr (e, r) ↦ ground (arith, r)
  | inl (b, r) ↦ ground (
    arith,
    r,
    ready_steps-ready 1 (sort_by item_before request.packages),
    ready_steps-is_nil 1 (sort_by item_before request.packages),
    sort_by-is_nil request.packages,
  )
]

all_activated :
    (reason : String) (steps : List CampaignStep)
    → all_of is_under_way (map (set_step StepState.activated reason) steps) ≡ true
all_activated reason steps =
    all_of-map is_under_way (set_step StepState.activated reason) steps (λ s. refl)

none_committed :
    (reason : String) (steps : List CampaignStep)
    → is_nil steps ≡ false
    → all_of is_committed (map (set_step StepState.activated reason) steps) ≡ false
none_committed reason [] h = absurd (ground (arith, h))
none_committed reason (s ∷ steps) h = refl

map-is_nil :
    (f : CampaignStep → CampaignStep) (steps : List CampaignStep)
    → is_nil (map f steps) ≡ is_nil steps
map-is_nil f [] = refl
map-is_nil f (s ∷ steps) = refl

pub activate_steps-coherent :
    (m : VehicleUpdateManager) (plan : VehicleCampaignPlan) (vehicle : MachineState)
    → all_of is_ready plan.steps ≡ true
    → is_nil plan.steps ≡ false
    → is_coherent (activate_steps m plan vehicle).0.active_campaign ≡ true
unfolding activate_steps
activate_steps-coherent m plan vehicle h k = elim (Option-cases (unmet vehicle plan.steps)) [
  | inr (s, r) ↦ ground (arith, r, h)
  | inl r ↦ elim (Bool-cases m.policy.require_health_confirmation) [
    | inl t ↦ ground (
      arith,
      r,
      t,
      all_activated "activation requested" plan.steps,
      none_committed "activation requested" plan.steps k,
    )
    | inr f ↦
        let f_step = set_step StepState.committed "committed without health confirmation" in
        ground (
          arith,
          r,
          f,
          k,
          map-is_nil f_step plan.steps,
          all_of-map is_committed f_step plan.steps (λ s. refl),
        )
  ]
]
