-- ===== src/StateManagement/Examples.antt =====
-- Tests of the State Management model, and its theorems at concrete inputs.
use mathlib.Core.List.{Perm}
use open_autosar.Base.{ℕ, ◌≡◌, refl, find, put, true, false, List, [], ◌∷◌, All, from_value}
use open_autosar.Execution.{FunctionGroupState, off, startup}
use open_autosar.Execution.Manager.{
  transition_function_group, is_allowed_transition, start_process, start_record, with_process,
}
use open_autosar.Execution.Examples.{numbering, one_process}
use open_autosar.StateManagement.{
  StateRequestPriority, low, normal, high, critical, start, FunctionGroupTransition,
  FunctionGroupDefinition, StateRequest, TransitionRecord, FunctionGroupRecord, PendingRequest,
  StateManager,
}
use open_autosar.StateManagement.Validation.{
  contains_state, find_transition, validate_definition, validate_transitions, validate_actions,
  validate_request,
}
use open_autosar.StateManagement.Queue.{less, max_element}
use open_autosar.StateManagement.Manager.{
  new, find_group, put_group, store_record, register_function_group, current_state,
}
use open_autosar.StateManagement.Finish.{after_actions, finish_move}
use open_autosar.StateManagement.Apply.{
  apply_request, apply_to_group, apply_transition, apply_actions, apply_process_action,
  report_result, apply_next_request, request_function_group_state,
}
use open_autosar.StateManagement.Calls.{Call, registers, requests, step, run}
use open_autosar.StateManagement.Selection.{Precedes}
use open_autosar.StateManagement.Serving.{apply_next_request-serves}
use open_autosar.StateManagement.Outcome.{Logged, apply_request-Logged}
use open_autosar.StateManagement.Settled.{Settled, apply_request-Settled}
use open_autosar.StateManagement.Definitions.{WellFormed}
use open_autosar.StateManagement.Allowed.{run_allowed}
use open_autosar.StateManagement.Agreement.{run_agrees}

abbrev boot : FunctionGroupTransition
boot = record {
  from = off;
  to = startup;
  process_actions = record { process_name = "camera"; action = start; required = true } ∷ [];
  enter_degraded_on_failure = false;
  failure_state = FunctionGroupState.degraded;
  rationale = "power on";
}

abbrev machine : FunctionGroupDefinition
machine = record {
  name = "machine";
  initial_state = off;
  allowed_states = off ∷ startup ∷ [];
  transitions = boot ∷ [];
}

abbrev machine_group : FunctionGroupRecord
machine_group = record { definition = machine; state = off }

abbrev request_of : StateRequestPriority → FunctionGroupState → StateRequest
request_of priority s = record {
  requester = "test";
  function_group = "machine";
  requested_state = s;
  priority = priority;
  reason = "test";
}

abbrev with_machine : StateManager ℕ
with_machine = record (new one_process) { function_groups = machine_group ∷ [] }

abbrev boot_request : StateRequest
boot_request = request_of normal startup

abbrev history : List Call
history = registers machine ∷ requests boot_request ∷ []

boot_succeeds :
    current_state (apply_request numbering with_machine boot_request 1).0 "machine"
    ≡ from_value startup
unfolding apply_request apply_to_group apply_transition apply_actions apply_process_action
    report_result start_process start_record with_process current_state find_group put_group
    after_actions finish_move transition_function_group is_allowed_transition find_transition
    store_record new find put
boot_succeeds = refl

apply_request-Logged_example :
    (r : TransitionRecord) × Logged with_machine boot_request 1
      (apply_request numbering with_machine boot_request 1)
      r
unfolding find_group new
apply_request-Logged_example =
    apply_request-Logged numbering with_machine machine_group boot_request 1 refl

apply_request-Settled_example :
    Settled machine_group startup "machine" (apply_request numbering with_machine boot_request 1)
unfolding find_group new
apply_request-Settled_example =
    apply_request-Settled numbering with_machine machine_group boot_request 1 refl

abbrev queued : ℕ → StateRequestPriority → PendingRequest
queued sequence priority = record { sequence = sequence; request = request_of priority startup }

abbrev waiting : List PendingRequest
waiting = queued 3 high ∷ queued 4 critical ∷ []

abbrev with_queue : StateManager ℕ
with_queue = record with_machine { pending_requests = queued 2 low ∷ waiting }

serves_critical : (max_element (queued 2 low) 0 1 waiting).0 ≡ queued 4 critical
unfolding max_element less
serves_critical = refl

apply_next_request-serves_example :
    (p : PendingRequest) × (rest : List PendingRequest) × All (Precedes p) (queued 2 low ∷ waiting)
    × Perm (queued 2 low ∷ waiting) (p ∷ rest)
    × (apply_next_request numbering with_queue
        ≡ apply_request numbering
            (record with_queue { pending_requests = rest })
            p.request
            p.sequence)
apply_next_request-serves_example =
    apply_next_request-serves numbering with_queue (queued 2 low) waiting refl

abbrev started : FunctionGroupRecord
started = record machine_group { state = startup }

history_groups : (run numbering (new one_process) history).function_groups ≡ started ∷ []
unfolding run step register_function_group validate_definition validate_transitions validate_actions
    contains_state request_function_group_state validate_request apply_request apply_to_group
    apply_transition apply_actions apply_process_action report_result start_process start_record
    with_process find_group put_group after_actions finish_move transition_function_group
    is_allowed_transition find_transition store_record new find put
history_groups = refl

run_allowed_example : WellFormed started
unfolding find_group
run_allowed_example =
    run_allowed numbering one_process history "machine" started (rw history_groups refl)

run_agrees_example : startup ≡ (run numbering (new one_process) history).execution.function_group
run_agrees_example = run_agrees numbering one_process history started history_groups
