-- ===== src/UpdateManagement/Slots.antt =====
-- The states of `UpdateManager` and the slots of `RaucBackendSimulator` (update_manager.cpp), over
-- histories in which any operation of the backend may be made to fail.
use open_autosar.Base.{ℕ, ◌≡◌, ◌≢◌, List, [], ◌∷◌, none, some, arith}
use open_autosar.UpdateManagement.{
  staged, pending_health_confirmation, committed, failed, BackendOperation, SoftwareClusterPackage,
  UpdatePolicy, UpdateManager,
}
use open_autosar.UpdateManagement.Backend.{
  RaucBackendSimulator, rauc_simulator, new_simulator, fail_next, install_inactive,
  activate_pending, commit, rollback,
}
use open_autosar.UpdateManagement.Manager.{
  new, transfer_package, verify_package, verify_pending, stage_package, stage_pending, activate,
  confirm_health, abort_and_rollback, after_validation, after_install, after_activation,
  after_commit, after_rollback,
}
use open_autosar.UpdateManagement.Calls.{
  Call, transfers, verifies, stages, activates, confirms, aborts, step,
}

pub data Event : Type 0 where
  call : Call → Event
  fault : BackendOperation → Event

unfoldable pub react :
    UpdateManager RaucBackendSimulator → Event → UpdateManager RaucBackendSimulator
react m (call c) = step rauc_simulator m c
react m (fault o) = record m { backend = fail_next m.backend o }

unfoldable pub history :
    UpdateManager RaucBackendSimulator → List Event → UpdateManager RaucBackendSimulator
history m [] = m
history m (e ∷ es) = history (react m e) es

pub record Linked (m : UpdateManager RaucBackendSimulator) : Type 0 where
  pub settled :
      m.state ≢ pending_health_confirmation → m.state ≢ failed → m.backend.slots.pending_slot ≡ none
  pub staged_package :
      m.state ≡ staged → m.backend.slots.installed_in_inactive_slot ≡ m.pending_package
  pub trial :
      m.state ≡ pending_health_confirmation
      → (m.backend.slots.pending_slot ≡ some m.backend.slots.active_slot)
        × (m.backend.slots.active_package ≡ m.pending_package)
  pub final : m.state ≡ committed → m.backend.slots.active_package ≡ m.pending_package

react-Linked : (m : UpdateManager RaucBackendSimulator) (e : Event) → Linked m → Linked (react m e)
unfolding react step transfer_package verify_package verify_pending stage_package stage_pending
    activate confirm_health abort_and_rollback after_validation after_install after_activation
    after_commit after_rollback fail_next install_inactive activate_pending commit rollback
react-Linked m (fault o) h = ground arith
react-Linked m (call (transfers p)) h = ground arith
react-Linked m (call verifies) h = ground arith
react-Linked m (call stages) h = ground arith
react-Linked m (call (activates s)) h = ground arith
react-Linked m (call (confirms c)) h = ground arith
react-Linked m (call (aborts reason)) h = ground arith

history-Linked_from :
    (m : UpdateManager RaucBackendSimulator) (es : List Event) → Linked m → Linked (history m es)
unfolding history
history-Linked_from m [] h = h
history-Linked_from m (e ∷ es) h = history-Linked_from (react m e) es (react-Linked m e h)

-- Over every history of calls and simulated faults from a new simulator and manager: a slot is
-- pending only in `PendingHealthConfirmation` and `Failed`; a staged package is the one in the
-- inactive slot; while the health confirmation is awaited, the pending slot is the active one and
-- runs the transferred package; and in `Committed` the active slot runs the transferred package.
pub history-Linked :
    (free : ℕ) (p : SoftwareClusterPackage) (policy : UpdatePolicy) (es : List Event)
    → Linked (history (new (new_simulator free p) policy) es)
unfolding new new_simulator
history-Linked free p policy es =
    history-Linked_from (new (new_simulator free p) policy) es (ground arith)
