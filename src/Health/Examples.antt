-- ===== src/Health/Examples.antt =====
-- The theorems on Platform Health Management at concrete inputs.
use open_autosar.Base.{◌≡◌, refl, ltb, List, [], ◌∷◌, some, find, arith, pos, from_value}
use open_autosar.Health.{
  SupervisionStatus, RecoveryAction, SupervisionPolicy, SupervisionReport, PlatformHealthManager,
  same_status,
}
use open_autosar.Health.Supervision.{registered}
use open_autosar.Health.Manager.{report_restart, report_process_termination}
use open_autosar.Health.Restarts.{restarts, restart_after_termination, restarts_limit}
use open_autosar.Health.Sequence.{
  Call, registers, checkpoint, restarted, run, AllInBounds, run_in_bounds,
}

abbrev policy : SupervisionPolicy
policy = record {
  entity = "camera";
  checkpoint_sequence = "capture" ∷ "publish" ∷ [];
  alive_timeout = pos 100;
  deadline_timeout = pos 50;
  degraded_after_missed_alive = 1;
  failed_after_missed_alive = 2;
  max_restart_count = 1;
  activation_time_ms = 1000;
  sequence_error_action = RecoveryAction.restart_process;
  deadline_miss_action = RecoveryAction.ignore;
  degraded_action = RecoveryAction.enter_degraded_mode;
  failed_action = RecoveryAction.request_safe_state;
  termination_action = RecoveryAction.restart_process;
  resource_exhaustion_action = RecoveryAction.ignore;
  service_unavailable_action = RecoveryAction.ignore;
}

abbrev manager : PlatformHealthManager
manager = record { entities = ("camera", registered policy) ∷ [] }

known : find "camera" manager.entities ≡ some (registered policy)
unfolding find
known = refl

restart_after_termination_example :
    (r : SupervisionReport) × ((report_restart
        (report_process_termination manager "camera" 1500).0
        "camera"
        1600).1
      ≡ from_value r)
    × (r.restart_count ≡ 1)
    × (r.status ≡ SupervisionStatus.process_terminated)
restart_after_termination_example =
    restart_after_termination manager "camera" 1500 1600 (registered policy) known (omega arith)

restarts_limit_example :
    (r : SupervisionReport) × ((restarts manager "camera" 1600 (1500 ∷ [])).1 ≡ from_value r)
    × (same_status r.status SupervisionStatus.restart_limit_exceeded ≡ ltb 1 2)
restarts_limit_example =
    restarts_limit manager "camera" 1600 (1500 ∷ []) (registered policy) known (omega arith) refl
      refl

abbrev calls : List Call
calls =
    registers policy
    ∷ checkpoint "camera" "capture" 1010
    ∷ checkpoint "camera" "publish" 1020
    ∷ restarted "camera" 1030
    ∷ []

run_in_bounds_example : AllInBounds (run (record { entities = [] }) calls).entities
run_in_bounds_example = run_in_bounds calls (record { entities = [] }) tt
