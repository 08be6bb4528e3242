-- ===== src/UpdateManagement/Policy.antt =====
-- update_manager.cpp: `ValidatePackage` and the tests that it calls.
use open_autosar.Base.{
  ltb, Bool, true, false, not, ◌&&◌, ◌||◌, String, Option, none, some, has_text, all_of, text_less,
  find, if◌then◌else◌, Result, from_value, from_error,
}
use open_autosar.Health.{HealthState, healthy}
use open_autosar.UpdateManagement.{
  SoftwareClusterPackage, UpdatePolicy, SlotStatus, HealthConfirmation,
}
use open_autosar.UpdateManagement.Backend.{make_error}

unfoldable pub is_trusted_signer : UpdatePolicy → String → Bool
is_trusted_signer policy signer_id = has_text signer_id policy.trusted_signers

abbrev pub is_some : Option String → Bool
is_some none = false
is_some (some v) = true

unfoldable pub are_dependencies_installed : UpdatePolicy → SoftwareClusterPackage → Bool
are_dependencies_installed policy p =
    all_of (λ name. is_some (find name policy.installed_versions)) p.dependencies

-- The versions are compared as texts.
unfoldable pub is_version_upgrade : UpdatePolicy → SoftwareClusterPackage → Bool
is_version_upgrade policy p = elim (find p.cluster_name policy.installed_versions) [
  | none ↦ true
  | some installed ↦ text_less installed p.version
]

abbrev pub is_healthy : HealthState → Bool
is_healthy healthy = true
is_healthy _ = false

unfoldable pub health_confirmed : HealthConfirmation → Bool
health_confirmed c =
    c.execution_started
    && is_healthy c.platform_health
    && c.diagnostics_available
    && c.dashboard_available

-- The end of `ValidatePackage`, on the backend's status.
unfoldable pub fits_slot : SoftwareClusterPackage → Result SlotStatus → Result Bool
fits_slot p (from_error e) = from_error e
fits_slot p (from_value s) =
    if ltb s.inactive_slot_free_bytes p.required_free_bytes
    then from_error (make_error "package requires more space than inactive slot")
    else from_value true

unfoldable pub validate_package :
    UpdatePolicy → Result SlotStatus → SoftwareClusterPackage → Result Bool
validate_package policy status p =
    if not p.signature_verified || not (is_trusted_signer policy p.signer_id)
    then from_error (make_error "package signature or signer is not trusted")
    else if not p.compatible_platform
    then from_error (make_error "package is not compatible with this platform")
    else if not p.manifests_present
    then from_error (make_error "package manifests are missing")
    else if policy.require_sbom && not p.sbom_present
    then from_error (make_error "package SBOM is missing")
    else if policy.require_provenance && not p.provenance_present
    then from_error (make_error "package provenance is missing")
    else if not (are_dependencies_installed policy p)
    then from_error (make_error "package dependency closure is incomplete")
    else if not (is_version_upgrade policy p)
    then from_error (make_error "package version is not an upgrade")
    else fits_slot p status
