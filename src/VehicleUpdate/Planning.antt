-- ===== src/VehicleUpdate/Planning.antt =====
-- What a campaign that is planned is (vehicle_update_manager.cpp).
use mathlib.Core.List.{Perm}
use open_autosar.Base.{
  ◌≤◌, ◌≡◌, ap, Bool, true, false, not, ◌||◌, String, eq_iff, has_text, text_less-asym, IsUnique,
  AreNew, AreNew-init, List, [], ◌∷◌, ◌++◌, map, is_nil, length, All, some, Option-cases, find,
  sort_by, sort_by-Perm, sort_by-IsSorted, IsSorted, Result-cases, from_value, inl, inr, arith,
}
use open_autosar.VehicleUpdate.{
  is_online, EcuInventory, CampaignPackage, VehicleCampaignRequest, VehicleCampaignPlan,
  VehicleUpdateManager,
}
use open_autosar.VehicleUpdate.Eligibility.{
  is_trusted_signer, is_version_upgrade, are_dependencies_installed, validate_target,
  validate_package, target, validate_packages, validate_request,
}
use open_autosar.VehicleUpdate.Campaigns.{item_before, ready_steps, planned_campaign, plan_campaign}

-- What a package needs of the ECU that it is for.
pub record Eligible (m : VehicleUpdateManager) (item : CampaignPackage) : Type 0 where
  ecu : EcuInventory
  registered : find item.ecu_id m.inventory ≡ some ecu
  reachable : (not m.policy.require_all_targets_online || is_online ecu.availability) ≡ true
  reversible : (not m.policy.require_rollback_capable || ecu.rollback_supported) ≡ true
  signed : item.cluster_package.signature_verified ≡ true
  trusted : is_trusted_signer m item.cluster_package.signer_id ≡ true
  fits : item.cluster_package.required_free_bytes ≤ ecu.inactive_slot_free_bytes
  closed : are_dependencies_installed m item ≡ true
  upgrades : is_version_upgrade m item ≡ true

validate_target-Eligible :
    (m : VehicleUpdateManager) (ecu : EcuInventory) (item : CampaignPackage) (b : Bool)
    → find item.ecu_id m.inventory ≡ some ecu
    → validate_target m ecu item ≡ from_value b
    → Eligible m item
unfolding validate_target
validate_target-Eligible m ecu item b r h = record {
  ecu = ecu;
  registered = r;
  reachable = ground (arith, h);
  reversible = ground (arith, h);
  signed = ground (arith, h);
  trusted = ground (arith, h);
  fits = ground (arith, h);
  closed = ground (arith, h);
  upgrades = ground (arith, h);
}

validate_package-Eligible :
    (m : VehicleUpdateManager) (item : CampaignPackage) (b : Bool)
    → validate_package m item ≡ from_value b
    → Eligible m item
unfolding validate_package
validate_package-Eligible m item b h = elim (Option-cases (find item.ecu_id m.inventory)) [
  | inl n ↦ absurd (ground (arith, h, n))
  | inr (ecu, r) ↦ validate_target-Eligible m ecu item b r (ground (arith, h, r))
]

abbrev pub targets : List CampaignPackage → List String
targets items = map target items

validate_packages-Eligible :
    (m : VehicleUpdateManager) (seen : List String) (items : List CampaignPackage) (b : Bool)
    → validate_packages m seen items ≡ from_value b
    → All (Eligible m) items × AreNew seen (targets items) × IsUnique (targets items)
unfolding validate_packages
validate_packages-Eligible m seen [] b h = (tt, tt, tt)
validate_packages-Eligible m seen (item ∷ items) b h =
    elim (Result-cases (validate_package m item)) [
      | inr (e, r) ↦ absurd (ground (arith, h, r))
      | inl (v, r) ↦
          let new_target : has_text (target item) seen ≡ false = ground (arith, h, r) in
          let rest : validate_packages m (seen ++ (target item ∷ [])) items ≡ from_value b =
            ground (arith, h, r) in
          let (eligible, news, unique) =
            validate_packages-Eligible m (seen ++ (target item ∷ [])) items b rest in
          let (older, absent) = AreNew-init seen (target item) (targets items) news in
          ((validate_package-Eligible m item v r, eligible), (new_target, older), (absent, unique))
    ]

item_before-asym : (x y : CampaignPackage) → item_before x y ≡ true → item_before y x ≡ false
item_before-asym x y h = ground (
  arith,
  h,
  eq_iff x.ecu_id y.ecu_id,
  eq_iff y.ecu_id x.ecu_id,
  text_less-asym x.ecu_id y.ecu_id,
  text_less-asym x.cluster_package.cluster_name y.cluster_package.cluster_name,
)

-- A planned campaign and its packages in the order of the steps.
pub record Planned (m : VehicleUpdateManager) (request : VehicleCampaignRequest)
    (plan : VehicleCampaignPlan) (ordered : List CampaignPackage) : Type 0 where
  eligible : All (Eligible m) request.packages
  unique : IsUnique (targets request.packages)
  some_packages : is_nil request.packages ≡ false
  bounded : length request.packages ≤ m.policy.max_steps
  complete : Perm ordered request.packages
  sorted : IsSorted item_before ordered
  steps : plan.steps ≡ ready_steps 1 ordered
  active : (plan_campaign m request).0.active_campaign ≡ some plan

validate_request-parts :
    (m : VehicleUpdateManager) (request : VehicleCampaignRequest) (b : Bool)
    → validate_request m request ≡ from_value b
    → (is_nil request.packages ≡ false)
      × (length request.packages ≤ m.policy.max_steps)
      × (validate_packages m [] request.packages ≡ from_value b)
unfolding validate_request
validate_request-parts m request b h = (ground (arith, h), ground (arith, h), ground (arith, h))

plan_campaign_inv :
    (m : VehicleUpdateManager) (request : VehicleCampaignRequest) (plan : VehicleCampaignPlan)
    → (plan_campaign m request).1 ≡ from_value plan
    → (b : Bool) × (validate_request m request ≡ from_value b)
      × (plan ≡ planned_campaign request)
      × ((plan_campaign m request).0.active_campaign ≡ some plan)
unfolding plan_campaign
plan_campaign_inv m request plan h = elim (Result-cases (validate_request m request)) [
  | inr (e, r) ↦ absurd (ground (arith, h, r))
  | inl (b, r) ↦ (b, r, ground (arith, h, r), ground (arith, h, r))
]

-- A campaign that is planned is the active one; it has packages, no more than the policy's steps;
-- each is for a registered ECU that is online and can roll back if the policy requires it, is signed
-- by a trusted signer, fits the ECU's inactive slot, has its dependencies installed there and raises
-- the version; no target occurs twice; and the steps are the packages in the order of ECU and
-- cluster, numbered from one.
pub plan_campaign-Planned :
    (m : VehicleUpdateManager) (request : VehicleCampaignRequest) (plan : VehicleCampaignPlan)
    → (plan_campaign m request).1 ≡ from_value plan
    → Planned m request plan (sort_by item_before request.packages)
plan_campaign-Planned m request plan h =
    let (b, valid, same, active) = plan_campaign_inv m request plan h in
    let (has_packages, bound, packages) = validate_request-parts m request b valid in
    let (eligible, _, unique) = validate_packages-Eligible m [] request.packages b packages in
    record {
      eligible = eligible;
      unique = unique;
      some_packages = has_packages;
      bounded = bound;
      complete = sort_by-Perm item_before request.packages;
      sorted = sort_by-IsSorted item_before item_before-asym request.packages;
      steps = ap (λ (p : VehicleCampaignPlan). p.steps) same;
      active = active;
    }
