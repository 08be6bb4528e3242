-- ===== src/UpdateManagement/Recovery.antt =====
-- `UpdateManager` on `RaucBackendSimulator` (update_manager.cpp): activation, commit and rollback
-- end to end.
use open_autosar.Base.{
  ◌≡◌, ◌≢◌, true, false, String, none, some, arith, is_empty, find, find-put, eq_refl,
}
use open_autosar.UpdateManagement.{
  MachineState, staged, committed, rolled_back, HealthConfirmation, SoftwareClusterPackage,
  UpdateManager,
}
use open_autosar.UpdateManagement.Backend.{
  RaucBackendSimulator, rauc_simulator, activate_pending, commit, rollback,
}
use open_autosar.UpdateManagement.Policy.{health_confirmed}
use open_autosar.UpdateManagement.Manager.{
  activate, confirm_health, abort_and_rollback, after_activation, after_commit, after_rollback,
  note_version,
}

module _ (m : UpdateManager RaucBackendSimulator) (p : SoftwareClusterPackage) (s : MachineState)
    (c : HealthConfirmation) (at_staged : m.state ≡ staged)
    (allowed : m.policy.activation_state ≡ s) (attempts : m.policy.max_boot_attempts ≢ 0)
    (no_fault : m.backend.fail_next_operation ≡ none)
    (installed : m.backend.slots.installed_in_inactive_slot ≡ some p) where
  abbrev pub confirmed : UpdateManager RaucBackendSimulator
  confirmed = (confirm_health rauc_simulator (activate rauc_simulator m s).0 c).0

  -- In `Staged`, with a package installed, no simulated fault and a boot attempt budget that is not
  -- zero: an activation in the policy's machine state followed by a confirmation that is not
  -- healthy ends in `RolledBack`. If no boot attempts were left over before, the slots, the active
  -- package and the free space are as before, no slot is pending, and the failed package is still
  -- in the inactive slot.
  pub confirm_health-restores :
      health_confirmed c ≡ false
      → m.backend.slots.boot_attempts_remaining ≡ 0
      → (confirmed.state ≡ rolled_back)
        × (confirmed.backend.slots
            ≡ record (m.backend.slots) { pending_slot = none; installed_in_inactive_slot = some p })
  unfolding confirm_health activate after_activation after_rollback activate_pending rollback
  confirm_health-restores h z = ground arith

  -- Under the same conditions, with a healthy confirmation, the transaction ends in `Committed`:
  -- the slots are swapped, the installed package is the active one, nothing is pending, and the
  -- version of the manager's pending package is noted as installed for its cluster.
  pub confirm_health-commits :
      (q : SoftwareClusterPackage)
      → m.pending_package ≡ some q
      → health_confirmed c ≡ true
      → (confirmed.state ≡ committed)
        × (confirmed.backend.slots.active_slot ≡ m.backend.slots.inactive_slot)
        × (confirmed.backend.slots.inactive_slot ≡ m.backend.slots.active_slot)
        × (confirmed.backend.slots.active_package ≡ some p)
        × (confirmed.backend.slots.pending_slot ≡ none)
        × (find q.cluster_name confirmed.policy.installed_versions ≡ some q.version)
  unfolding confirm_health activate after_activation after_commit activate_pending commit
      note_version
  confirm_health-commits q e h = ground (
    arith,
    find-put q.cluster_name q.cluster_name q.version m.policy.installed_versions,
    eq_refl q.cluster_name,
  )

-- In every state, and whatever fault is simulated, two calls of `AbortAndRollback` with a reason
-- bring the transaction to `RolledBack` with no slot pending.
pub abort_and_rollback_twice :
    (m : UpdateManager RaucBackendSimulator) (reason : String)
    → is_empty reason ≡ false
    → let m' = (abort_and_rollback rauc_simulator m reason).0 in
      let m'' = (abort_and_rollback rauc_simulator m' reason).0 in
      (m''.state ≡ rolled_back) × (m''.backend.slots.pending_slot ≡ none)
unfolding abort_and_rollback after_rollback rollback
abort_and_rollback_twice m reason h = ground arith
