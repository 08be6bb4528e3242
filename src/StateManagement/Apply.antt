-- ===== src/StateManagement/Apply.antt =====
-- state_manager.cpp: `ApplyProcessAction`, `ApplyRequest` and the two methods that call it.
use open_autosar.Base.{
  ℕ, ◌+◌, true, false, not, ◌&&◌, List, [], ◌∷◌, ◌++◌, none, some, if◌then◌else◌, u64, Result,
  from_value, from_error,
}
use open_autosar.Process.{ProcessLauncher}
use open_autosar.Execution.{ExecutionManager, ProcessState, declared, same_state}
use open_autosar.Execution.Manager.{start_process, stop_process}
use open_autosar.StateManagement.{
  start, stop, restart, ProcessTransitionAction, FunctionGroupTransition, StateRequest,
  ProcessActionReport, TransitionRecord, FunctionGroupRecord, PendingRequest, StateManager,
}
use open_autosar.StateManagement.Validation.{make_error, find_transition, validate_request}
use open_autosar.StateManagement.Finish.{
  ActionsEnd, actions_done, action_error, required_failed, after_actions,
}
use open_autosar.StateManagement.Queue.{max_element, erase_at}
use open_autosar.StateManagement.Manager.{find_group, store_record}

-- The report that `ApplyProcessAction` starts from.
abbrev pub new_report : ProcessTransitionAction → ProcessActionReport
new_report a = record {
  process_name = a.process_name;
  action = a.action;
  required = a.required;
  success = false;
  resulting_state = declared;
  error = "";
}

-- The end of `ApplyProcessAction`, on the result of the call of Execution Management.
unfoldable pub report_result :
    ProcessActionReport → Result ProcessState → Result ProcessActionReport
report_result report (from_error e) = from_value (record report { error = e.message })
report_result report (from_value s) =
    from_value (record report { success = true; resulting_state = s })

-- The record that `ApplyRequest` starts from.
abbrev pub new_record : StateRequest → ℕ → FunctionGroupRecord → TransitionRecord
new_record request sequence g = record {
  sequence = sequence;
  request = request;
  previous_state = g.state;
  resulting_state = g.state;
  accepted = false;
  completed = false;
  failure = "";
  actions = [];
}

module _ {L : Type 0} (launcher : ProcessLauncher L) where
  unfoldable pub apply_process_action :
      ExecutionManager L → ProcessTransitionAction → ExecutionManager L × Result ProcessActionReport
  apply_process_action em a = elim a.action [
    | start ↦
        let r = start_process launcher em a.process_name in (r.0, report_result (new_report a) r.1)
    | stop ↦
        let r = stop_process launcher em a.process_name in (r.0, report_result (new_report a) r.1)
    | restart ↦
        let stopped = stop_process launcher em a.process_name in
        elim stopped.1 [
          | from_error e ↦ (stopped.0, from_value (record (new_report a) { error = e.message }))
          | from_value _ ↦
              let r = start_process launcher stopped.0 a.process_name in
              (r.0, report_result (new_report a) r.1)
        ]
  ]

  -- The loop of `ApplyRequest` over `transition->process_actions`.
  unfoldable pub apply_actions :
      ExecutionManager L
      → List ProcessTransitionAction
      → List ProcessActionReport
      → ExecutionManager L × List ProcessActionReport × ActionsEnd
  apply_actions em [] reports = (em, reports, actions_done)
  apply_actions em (a ∷ as') reports =
      let r = apply_process_action em a in
      elim r.1 [
        | from_error e ↦ (r.0, reports, action_error e)
        | from_value report ↦
            if not report.success && a.required
            then (r.0, reports ++ (report ∷ []), required_failed report.error)
            else apply_actions r.0 as' (reports ++ (report ∷ []))
      ]

  -- `ApplyRequest` once a transition is found.
  unfoldable pub apply_transition :
      StateManager L
      → FunctionGroupRecord
      → FunctionGroupTransition
      → TransitionRecord
      → StateManager L × Result TransitionRecord
  apply_transition m g t r =
      let done = apply_actions m.execution t.process_actions [] in
      after_actions (record m { execution = done.0 }) g t
        (record r { accepted = true; actions = done.1 }) done.2

  -- `ApplyRequest` on a registered group.
  unfoldable pub apply_to_group :
      StateManager L
      → FunctionGroupRecord
      → StateRequest
      → ℕ
      → StateManager L × Result TransitionRecord
  apply_to_group m g request sequence =
      let r = new_record request sequence g in
      let same : TransitionRecord = record r { accepted = true; completed = true } in
      let refused : TransitionRecord = record r {
        failure = "function group transition is not allowed";
      } in
      if same_state request.requested_state g.state
      then (store_record m same, from_value same)
      else elim (find_transition g.definition g.state request.requested_state) [
        | none ↦ (store_record m refused, from_error (make_error refused.failure))
        | some t ↦ apply_transition m g t r
      ]

  unfoldable pub apply_request :
      StateManager L → StateRequest → ℕ → StateManager L × Result TransitionRecord
  apply_request m request sequence = elim (find_group request.function_group m.function_groups) [
    | none ↦ (m, from_error (make_error "function group is not registered"))
    | some g ↦ apply_to_group m g request sequence
  ]

  unfoldable pub request_function_group_state :
      StateManager L → StateRequest → StateManager L × Result TransitionRecord
  request_function_group_state m request = elim (validate_request request) [
    | from_error e ↦ (m, from_error e)
    | from_value _ ↦
        apply_request (record m { next_sequence = u64 (m.next_sequence + 1) }) request
          m.next_sequence
  ]

  -- `ApplyNextRequest` on the pending requests.
  unfoldable pub apply_next :
      StateManager L → List PendingRequest → StateManager L × Result TransitionRecord
  apply_next m [] = (m, from_error (make_error "no pending state request is available"))
  apply_next m (x ∷ xs) =
      let selected = max_element x 0 1 xs in
      apply_request (record m { pending_requests = erase_at selected.1 (x ∷ xs) })
        selected.0.request selected.0.sequence

  unfoldable pub apply_next_request : StateManager L → StateManager L × Result TransitionRecord
  unfolding apply_next
  apply_next_request m = apply_next m m.pending_requests
