-- ===== src/StateManagement/Finish.antt =====
-- state_manager.cpp: the rest of `ApplyRequest` behind its loop over the process actions.
use open_autosar.Base.{Bool, true, String, Result, from_value, from_error, ErrorCode}
use open_autosar.Execution.{FunctionGroupState}
use open_autosar.Execution.Manager.{transition_function_group}
use open_autosar.StateManagement.{
  FunctionGroupTransition, TransitionRecord, FunctionGroupRecord, StateManager,
}
use open_autosar.StateManagement.Validation.{make_error}
use open_autosar.StateManagement.Manager.{put_group, store_record, enter_failure_state}

-- How the loop over the process actions ends.
pub data ActionsEnd : Type 0 where
  actions_done : ActionsEnd
  action_error : ErrorCode → ActionsEnd
  required_failed : String → ActionsEnd

-- `if (!degraded) record.failure = degraded.Error().message`.
unfoldable pub note_degraded : TransitionRecord → Result Bool → TransitionRecord
note_degraded r (from_error e) = record r { failure = e.message }
note_degraded r (from_value b) = r

module _ {L : Type 0} where
  -- The record that is stored when a transition fails.
  unfoldable pub failed_record :
      StateManager L
      → FunctionGroupRecord
      → FunctionGroupTransition
      → TransitionRecord
      → TransitionRecord
  failed_record m g t r =
      let o = enter_failure_state m.execution g t r in note_degraded o.transition_record o.result

  -- `EnterFailureState`, `StoreRecord` and the error, after `record.failure` is set.
  unfoldable pub fail_transition :
      StateManager L
      → FunctionGroupRecord
      → FunctionGroupTransition
      → TransitionRecord
      → StateManager L × Result TransitionRecord
  fail_transition m g t r =
      let o = enter_failure_state m.execution g t r in
      let r' = failed_record m g t r in
      (
        store_record
            (record m {
              execution = o.execution;
              function_groups = put_group o.group m.function_groups;
            })
            r',
        from_error (make_error r'.failure),
      )

  -- What follows the call of `TransitionFunctionGroup`, on its result.
  unfoldable pub finish_move :
      StateManager L
      → FunctionGroupRecord
      → FunctionGroupTransition
      → TransitionRecord
      → Result FunctionGroupState
      → StateManager L × Result TransitionRecord
  finish_move m g t r (from_error e) = fail_transition m g t (record r { failure = e.message })
  finish_move m g t r (from_value s) =
      let r' : TransitionRecord = record r { resulting_state = s; completed = true } in
      (
        store_record
            (record m { function_groups = put_group (record g { state = s }) m.function_groups })
            r',
        from_value r',
      )

  unfoldable pub after_actions :
      StateManager L
      → FunctionGroupRecord
      → FunctionGroupTransition
      → TransitionRecord
      → ActionsEnd
      → StateManager L × Result TransitionRecord
  after_actions m g t r (action_error e) =
      (store_record m (record r { failure = e.message }), from_error e)
  after_actions m g t r (required_failed message) =
      fail_transition m g t (record r { failure = message })
  after_actions m g t r actions_done =
      let moved = transition_function_group m.execution r.request.requested_state in
      finish_move (record m { execution = moved.0 }) g t r moved.1
