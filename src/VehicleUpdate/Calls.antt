-- ===== src/VehicleUpdate/Calls.antt =====
-- Calls of `VehicleUpdateManager` (vehicle_update_manager.cpp).
use open_autosar.Base.{String, List, [], ◌∷◌}
use open_autosar.UpdateManagement.{MachineState, HealthConfirmation}
use open_autosar.VehicleUpdate.{EcuInventory, VehicleCampaignRequest, VehicleUpdateManager}
use open_autosar.VehicleUpdate.Campaigns.{register_ecu, plan_campaign}
use open_autosar.VehicleUpdate.Activation.{activate_campaign}
use open_autosar.VehicleUpdate.Confirmation.{confirm_ecu_health, abort_and_rollback}

pub data Call : Type 0 where
  registers : EcuInventory → Call
  plans : VehicleCampaignRequest → Call
  activates : String → MachineState → Call
  confirms : String → String → HealthConfirmation → Call
  aborts : String → String → Call

unfoldable pub step : VehicleUpdateManager → Call → VehicleUpdateManager
step m (registers ecu) = (register_ecu m ecu).0
step m (plans request) = (plan_campaign m request).0
step m (activates id vehicle) = (activate_campaign m id vehicle).0
step m (confirms id ecu c) = (confirm_ecu_health m id ecu c).0
step m (aborts id reason) = (abort_and_rollback m id reason).0

unfoldable pub run : VehicleUpdateManager → List Call → VehicleUpdateManager
run m [] = m
run m (call ∷ calls) = run (step m call) calls
