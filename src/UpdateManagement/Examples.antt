-- ===== src/UpdateManagement/Examples.antt =====
-- Tests of the Update Management model, and its theorems at concrete inputs.
use open_autosar.Base.{
  ◌≡◌, refl, true, false, List, [], ◌∷◌, some, none, All, arith, find, String, codes,
}
use open_autosar.Health.{healthy}
use open_autosar.UpdateManagement.{
  idle, staged, pending_health_confirmation, rolled_back, update_allowed, BackendOperation,
  SoftwareClusterPackage, UpdatePolicy, HealthConfirmation, UpdateManager,
}
use open_autosar.UpdateManagement.Backend.{
  RaucBackendSimulator, rauc_simulator, new_simulator, commit,
}
use open_autosar.UpdateManagement.Policy.{health_confirmed, is_version_upgrade}
use open_autosar.UpdateManagement.Manager.{after_commit, new, activate, confirm_health}
use open_autosar.UpdateManagement.Calls.{
  Call, transfers, verifies, stages, activates, confirms, aborts, step, run,
}
use open_autosar.UpdateManagement.Lifecycle.{Walk, answers, run-Walk, step_commits}
use open_autosar.UpdateManagement.Trust.{recording, Trusted, installs-Trusted}
use open_autosar.UpdateManagement.AuditTrail.{last_state, run_audited}
use open_autosar.UpdateManagement.Recovery.{confirm_health-restores}
use open_autosar.UpdateManagement.Slots.{Event, call, fault, history, Linked, history-Linked}
use open_autosar.UpdateManagement.Versions.{is_version_upgrade-first_difference}

abbrev package_of : String → SoftwareClusterPackage
package_of version = record {
  cluster_name = "vehicle";
  version = version;
  signer_id = "oem";
  signature_verified = true;
  compatible_platform = true;
  required_free_bytes = 64;
  dependencies = [];
  manifests_present = true;
  sbom_present = true;
  provenance_present = true;
}

abbrev policy : UpdatePolicy
policy = record {
  activation_state = update_allowed;
  max_boot_attempts = 2;
  require_sbom = true;
  require_provenance = true;
  trusted_signers = "oem" ∷ [];
  installed_versions = ("vehicle", "9.0.0") ∷ [];
}

abbrev simulator : RaucBackendSimulator
simulator = record {
  slots = record {
    active_slot = "A";
    inactive_slot = "B";
    pending_slot = none;
    installed_in_inactive_slot = some (package_of "9.1.0");
    active_package = some (package_of "9.0.0");
    boot_attempts_remaining = 0;
    inactive_slot_free_bytes = 1024;
  };
  previous_active_package = none;
  fail_next_operation = none;
}

abbrev at_staged : UpdateManager RaucBackendSimulator
at_staged = record {
  backend = simulator;
  policy = policy;
  state = staged;
  pending_package = some (package_of "9.1.0");
  audit_trail = [];
}

abbrev all_well : HealthConfirmation
all_well = record {
  execution_started = true;
  platform_health = healthy;
  diagnostics_available = true;
  dashboard_available = true;
}

abbrev no_dashboard : HealthConfirmation
no_dashboard = record all_well { dashboard_available = false }

abbrev update_calls : List Call
update_calls =
    transfers (package_of "9.1.0")
    ∷ verifies
    ∷ stages
    ∷ activates update_allowed
    ∷ confirms all_well
    ∷ []

run-Walk_example :
    Walk idle
      (answers rauc_simulator (new simulator policy) update_calls)
      (run rauc_simulator (new simulator policy) update_calls).state
run-Walk_example = run-Walk rauc_simulator simulator policy update_calls

abbrev awaiting : UpdateManager RaucBackendSimulator
awaiting = record at_staged {
  state = pending_health_confirmation;
  backend = record simulator { slots = record (simulator.slots) { pending_slot = some "B" } };
}

step_commits_example :
    (pending_health_confirmation ≡ pending_health_confirmation)
    × (h : HealthConfirmation) × (confirms all_well ≡ confirms h)
    × (h.execution_started ≡ true)
    × (h.platform_health ≡ healthy)
    × (h.diagnostics_available ≡ true)
    × (h.dashboard_available ≡ true)
unfolding step confirm_health health_confirmed after_commit commit
step_commits_example = step_commits rauc_simulator awaiting (confirms all_well) (λ e. cc) refl

installs-Trusted_example :
    All
      (Trusted policy)
      (run (recording rauc_simulator) (new (simulator, []) policy) update_calls).backend.1
installs-Trusted_example = installs-Trusted rauc_simulator policy simulator update_calls

run_audited_example :
    let m = run rauc_simulator (new simulator policy) update_calls in
    last_state m.audit_trail ≡ some m.state
run_audited_example = run_audited rauc_simulator simulator policy update_calls

confirm_health-restores_example :
    let m =
      (confirm_health rauc_simulator
        (activate rauc_simulator at_staged update_allowed).0
        no_dashboard).0 in
    (m.state ≡ rolled_back) × (m.backend.slots ≡ simulator.slots)
unfolding health_confirmed
confirm_health-restores_example =
    confirm_health-restores at_staged (package_of "9.1.0") update_allowed no_dashboard refl refl
      (omega arith) refl refl refl refl

abbrev events : List Event
events =
    call (transfers (package_of "9.1.0"))
    ∷ call verifies
    ∷ fault BackendOperation.install_inactive
    ∷ call stages
    ∷ call (aborts "fault")
    ∷ []

history-Linked_example :
    Linked (history (new (new_simulator 1024 (package_of "9.0.0")) policy) events)
history-Linked_example = history-Linked 1024 (package_of "9.0.0") policy events

is_version_upgrade-first_difference_example :
    is_version_upgrade policy (package_of "10.0.0") ≡ false
unfolding find
is_version_upgrade-first_difference_example =
    is_version_upgrade-first_difference policy (package_of "10.0.0") "9.0.0" b'9' b'1' []
      (codes ".0.0") (codes "0.0.0") refl refl refl (omega arith)
