-- ===== src/StateManagement/Calls.antt =====
-- Histories of calls of the methods of `StateManager` that change it (state_manager.cpp).
use open_autosar.Base.{ℕ, List, [], ◌∷◌, Option}
use open_autosar.Process.{ProcessLauncher}
use open_autosar.StateManagement.{FunctionGroupDefinition, StateRequest, StateManager}
use open_autosar.StateManagement.Manager.{
  register_function_group, submit_state_request, register_observer,
}
use open_autosar.StateManagement.Apply.{apply_next_request, request_function_group_state}

pub data Call : Type 0 where
  registers : FunctionGroupDefinition → Call
  submits requests : StateRequest → Call
  applies : Call
  observes : Option ℕ → Call

module _ {L : Type 0} (launcher : ProcessLauncher L) where
  unfoldable pub step : StateManager L → Call → StateManager L
  step m (registers d) = (register_function_group m d).0
  step m (submits r) = (submit_state_request m r).0
  step m (requests r) = (request_function_group_state launcher m r).0
  step m applies = (apply_next_request launcher m).0
  step m (observes o) = (register_observer m o).0

  unfoldable pub run : StateManager L → List Call → StateManager L
  run m [] = m
  run m (c ∷ cs) = run (step m c) cs
