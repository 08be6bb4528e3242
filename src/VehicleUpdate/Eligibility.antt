-- ===== src/VehicleUpdate/Eligibility.antt =====
-- vehicle_update_manager.cpp: which campaigns and packages are accepted.
use open_autosar.Base.{
  ltb, Bool, true, false, not, ◌&&◌, ◌||◌, String, is_empty, has_text, text_less, concat, List, [],
  ◌∷◌, ◌++◌, is_nil, length, all_of, Option, none, some, find, if◌then◌else◌, ErrorCode, Result,
  from_value, from_error,
}
use open_autosar.UpdateManagement.{HealthConfirmation}
use open_autosar.UpdateManagement.Policy.{is_healthy}
use open_autosar.VehicleUpdate.{
  is_online, EcuInventory, CampaignPackage, VehicleCampaignRequest, VehicleUpdateManager,
}

abbrev pub make_error : String → ErrorCode
make_error message = record { domain = "vehicle-update-management"; message = message }

unfoldable pub is_trusted_signer : VehicleUpdateManager → String → Bool
is_trusted_signer m signer_id = has_text signer_id m.policy.trusted_signers

abbrev pub is_stored : Option String → Bool
is_stored none = false
is_stored (some v) = true

-- `item.cluster_package.version > version->second`, as texts, if there is one.
abbrev pub is_above : String → Option String → Bool
is_above version none = true
is_above version (some installed) = text_less installed version

unfoldable pub is_version_upgrade : VehicleUpdateManager → CampaignPackage → Bool
is_version_upgrade m item = elim (find item.ecu_id m.inventory) [
  | none ↦ false
  | some ecu ↦
      is_above item.cluster_package.version
        (find item.cluster_package.cluster_name ecu.installed_versions)
]

unfoldable pub are_dependencies_installed : VehicleUpdateManager → CampaignPackage → Bool
are_dependencies_installed m item = elim (find item.ecu_id m.inventory) [
  | none ↦ false
  | some ecu ↦
      all_of (λ d. is_stored (find d ecu.installed_versions)) item.cluster_package.dependencies
]

abbrev pub health_confirmed : HealthConfirmation → Bool
health_confirmed c =
    c.execution_started
    && is_healthy c.platform_health
    && c.diagnostics_available
    && c.dashboard_available

-- `ValidatePackage` once the ECU is found.
unfoldable pub validate_target : VehicleUpdateManager → EcuInventory → CampaignPackage → Result Bool
validate_target m ecu item =
    if m.policy.require_all_targets_online && not (is_online ecu.availability)
    then from_error (make_error "campaign target ECU is not online")
    else if m.policy.require_rollback_capable && not ecu.rollback_supported
    then from_error (make_error "campaign target cannot roll back")
    else if not item.cluster_package.signature_verified
        || not (is_trusted_signer m item.cluster_package.signer_id)
    then from_error (make_error "campaign package signer is not trusted")
    else if not item.cluster_package.compatible_platform
        || not item.cluster_package.manifests_present
    then from_error (make_error "campaign package is not deployable")
    else if m.policy.require_sbom && not item.cluster_package.sbom_present
    then from_error (make_error "campaign package SBOM is missing")
    else if m.policy.require_provenance && not item.cluster_package.provenance_present
    then from_error (make_error "campaign package provenance is missing")
    else if ltb ecu.inactive_slot_free_bytes item.cluster_package.required_free_bytes
    then from_error (make_error "campaign package exceeds inactive slot")
    else if not (are_dependencies_installed m item)
    then from_error (make_error "campaign dependency closure is incomplete")
    else if not (is_version_upgrade m item)
    then from_error (make_error "campaign package version is not an upgrade")
    else from_value true

unfoldable pub validate_package : VehicleUpdateManager → CampaignPackage → Result Bool
validate_package m item =
    if is_empty item.ecu_id
      || is_empty item.cluster_package.cluster_name
      || is_empty item.cluster_package.version
    then from_error (make_error "campaign package metadata is incomplete")
    else elim (find item.ecu_id m.inventory) [
      | none ↦ from_error (make_error "campaign references unknown ECU")
      | some ecu ↦ validate_target m ecu item
    ]

abbrev pub target : CampaignPackage → String
target item = concat (item.ecu_id ∷ ":" ∷ item.cluster_package.cluster_name ∷ [])

-- The loop of `ValidateRequest`, with the targets so far.
unfoldable pub validate_packages :
    VehicleUpdateManager → List String → List CampaignPackage → Result Bool
validate_packages m targets [] = from_value true
validate_packages m targets (item ∷ items) =
    let rest = validate_packages m (targets ++ (target item ∷ [])) items in
    elim (validate_package m item) [
      | from_error e ↦ from_error e
      | from_value _ ↦
          if has_text (target item) targets
          then from_error (make_error "campaign contains duplicate cluster target")
          else rest
    ]

unfoldable pub validate_request : VehicleUpdateManager → VehicleCampaignRequest → Result Bool
validate_request m request =
    if is_empty request.campaign_id
    then from_error (make_error "vehicle campaign id is empty")
    else if is_nil request.packages
    then from_error (make_error "vehicle campaign has no packages")
    else if ltb m.policy.max_steps (length request.packages)
    then from_error (make_error "vehicle campaign step budget exceeded")
    else validate_packages m [] request.packages
