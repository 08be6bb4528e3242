-- ===== src/StateManagement/Cases.antt =====
-- The branches of `ApplyRequest` (state_manager.cpp), as rules for a predicate on its outcome.
use open_autosar.Base.{
  ℕ, ◌≡◌, inl, inr, true, none, some, Option-cases, Bool-cases, Result, from_value, from_error,
  ErrorCode, Result-cases, u64, ◌+◌,
}
use open_autosar.Process.{ProcessLauncher}
use open_autosar.Execution.{same_state}
use open_autosar.StateManagement.{
  StateRequest, TransitionRecord, FunctionGroupRecord, FunctionGroupTransition, StateManager,
}
use open_autosar.StateManagement.Validation.{find_transition, make_error, validate_request}
use open_autosar.StateManagement.Manager.{find_group, store_record}
use open_autosar.StateManagement.Apply.{
  new_record, apply_transition, apply_to_group, apply_request, request_function_group_state,
}

-- The record of a request for the state that the group is in.
abbrev pub same_record : StateRequest → ℕ → FunctionGroupRecord → TransitionRecord
same_record request sequence g = record (new_record request sequence g) {
  accepted = true;
  completed = true;
}

abbrev pub refused_record : StateRequest → ℕ → FunctionGroupRecord → TransitionRecord
refused_record request sequence g = record (new_record request sequence g) {
  failure = "function group transition is not allowed";
}

module _ {L : Type 0} (launcher : ProcessLauncher L) where
  pub apply_to_group_cases {ℓ} :
      (P : StateManager L × Result TransitionRecord → Type ℓ) (m : StateManager L)
      (g : FunctionGroupRecord) (request : StateRequest) (sequence : ℕ)
      → (same_state request.requested_state g.state ≡ true
          → P (
            store_record m (same_record request sequence g),
            from_value (same_record request sequence g),
          ))
      → P (
        store_record m (refused_record request sequence g),
        from_error (make_error "function group transition is not allowed"),
      )
      → ((t : FunctionGroupTransition)
          → find_transition g.definition g.state request.requested_state ≡ some t
          → P (apply_transition launcher m g t (new_record request sequence g)))
      → P (apply_to_group launcher m g request sequence)
  unfolding apply_to_group
  apply_to_group_cases P m g request sequence same refused found =
      elim (Bool-cases (same_state request.requested_state g.state)) [
        | inl e ↦ rw (e, apply_to_group) (same e)
        | inr e ↦
            elim (Option-cases (find_transition g.definition g.state request.requested_state)) [
              | inl f ↦ rw (e, f, apply_to_group) refused
              | inr (t, f) ↦ rw (e, f, apply_to_group) (found t f)
            ]
      ]

  pub apply_request_cases {ℓ} :
      (P : StateManager L × Result TransitionRecord → Type ℓ) (m : StateManager L)
      (request : StateRequest) (sequence : ℕ)
      → (find_group request.function_group m.function_groups ≡ none
          → P (m, from_error (make_error "function group is not registered")))
      → ((g : FunctionGroupRecord)
          → find_group request.function_group m.function_groups ≡ some g
          → P (apply_to_group launcher m g request sequence))
      → P (apply_request launcher m request sequence)
  unfolding apply_request
  apply_request_cases P m request sequence missing found =
      elim (Option-cases (find_group request.function_group m.function_groups)) [
        | inl f ↦ rw (f, apply_request) (missing f)
        | inr (g, f) ↦ rw (f, apply_request) (found g f)
      ]

  pub request_function_group_state_cases {ℓ} :
      (P : StateManager L × Result TransitionRecord → Type ℓ) (m : StateManager L)
      (request : StateRequest)
      → ((e : ErrorCode) → validate_request request ≡ from_error e → P (m, from_error e))
      → P (
          apply_request launcher
            (record m { next_sequence = u64 (m.next_sequence + 1) })
            request
            m.next_sequence)
      → P (request_function_group_state launcher m request)
  unfolding request_function_group_state
  request_function_group_state_cases P m request refused applied =
      elim (Result-cases (validate_request request)) [
        | inl (_, f) ↦ rw (f, request_function_group_state) applied
        | inr (e, f) ↦ rw (f, request_function_group_state) (refused e f)
      ]
