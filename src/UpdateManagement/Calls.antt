-- ===== src/UpdateManagement/Calls.antt =====
-- Histories of calls of the methods of `UpdateManager` (update_manager.cpp).
use open_autosar.Base.{String, List, [], ◌∷◌}
use open_autosar.UpdateManagement.{
  MachineState, SoftwareClusterPackage, HealthConfirmation, UpdateBackend, UpdateManager,
}
use open_autosar.UpdateManagement.Manager.{
  transfer_package, verify_package, stage_package, activate, confirm_health, abort_and_rollback,
}

pub data Call : Type 0 where
  transfers : SoftwareClusterPackage → Call
  verifies stages : Call
  activates : MachineState → Call
  confirms : HealthConfirmation → Call
  aborts : String → Call

module _ {B : Type 0} (api : UpdateBackend B) where
  unfoldable pub step : UpdateManager B → Call → UpdateManager B
  step m (transfers p) = (transfer_package m p).0
  step m verifies = (verify_package api m).0
  step m stages = (stage_package api m).0
  step m (activates s) = (activate api m s).0
  step m (confirms c) = (confirm_health api m c).0
  step m (aborts reason) = (abort_and_rollback api m reason).0

  unfoldable pub run : UpdateManager B → List Call → UpdateManager B
  run m [] = m
  run m (c ∷ cs) = run (step m c) cs
