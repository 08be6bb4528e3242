-- ===== src/Execution/Calls.antt =====
-- Histories of calls of the methods of `ExecutionManager` that change it.
use open_autosar.Base.{String, List, [], ◌∷◌}
use open_autosar.Process.{ProcessLauncher}
use open_autosar.Execution.{ProcessManifest, ExecutionManager, FunctionGroupState}
use open_autosar.Execution.Manager.{
  start_process, stop_process, register_process, transition_function_group,
}

pub data Call : Type 0 where
  registers : ProcessManifest → Call
  starts stops : String → Call
  transitions : FunctionGroupState → Call

module _ {L : Type 0} (launcher : ProcessLauncher L) where
  unfoldable pub step : ExecutionManager L → Call → ExecutionManager L
  step m (registers manifest) = (register_process m manifest).0
  step m (starts name) = (start_process launcher m name).0
  step m (stops name) = (stop_process launcher m name).0
  step m (transitions s) = (transition_function_group m s).0

  unfoldable pub run : ExecutionManager L → List Call → ExecutionManager L
  run m [] = m
  run m (c ∷ cs) = run (step m c) cs
