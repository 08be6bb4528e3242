-- ===== src/StateManagement/Allowed.antt =====
-- Every function group stays within its allowed states (state_manager.cpp).
use open_autosar.Base.{
  ℕ, ◌≡◌, refl, sym, subst, ◌⊎◌, inl, inr, Bool, true, String, List, [], ◌∷◌, ◌++◌, none, some,
  arith, All, Result, from_value, from_error,
}
use open_autosar.Process.{ProcessLauncher}
use open_autosar.Execution.{ExecutionManager, FunctionGroupState}
use open_autosar.Execution.Manager.{transition_function_group}
use open_autosar.StateManagement.{
  FunctionGroupTransition, FunctionGroupDefinition, StateRequest, TransitionRecord,
  FunctionGroupRecord, PendingRequest, StateManager,
}
use open_autosar.StateManagement.Validation.{contains_state, validate_definition}
use open_autosar.StateManagement.Manager.{
  find_group, store_record, enter_failure_state, register_function_group, submit_state_request,
  register_observer, new,
}
use open_autosar.StateManagement.Apply.{
  apply_transition, apply_request, apply_next, apply_next_request,
}
use open_autosar.StateManagement.Cases.{
  apply_to_group_cases, apply_request_cases, request_function_group_state_cases,
}
use open_autosar.StateManagement.Outcome.{transition-requested}
use open_autosar.StateManagement.Groups.{find_group-All, put_group-All, append-All}
use open_autosar.StateManagement.Calls.{
  Call, registers, submits, applies, requests, observes, step, run,
}
use open_autosar.StateManagement.Definitions.{
  WellFormed, validate_definition-value, validate_definition-true, target-allowed,
}
use open_autosar.StateManagement.Finish.{
  ActionsEnd, actions_done, action_error, required_failed, fail_transition, finish_move,
  after_actions,
}

enter_failure_state-WellFormed :
    {L : Type 0} (em : ExecutionManager L) (g : FunctionGroupRecord) (t : FunctionGroupTransition)
    (r : TransitionRecord)
    → WellFormed g
    → WellFormed (enter_failure_state em g t r).group
unfolding enter_failure_state transition_function_group
enter_failure_state-WellFormed em g t r w = ground arith

module _ {L : Type 0} where
  abbrev pub Inv : StateManager L → Type 0
  Inv m = All WellFormed m.function_groups

  fail_transition-Inv :
      (m : StateManager L) (g : FunctionGroupRecord) (t : FunctionGroupTransition)
      (r : TransitionRecord)
      → Inv m
      → WellFormed g
      → Inv (fail_transition m g t r).0
  unfolding fail_transition store_record
  fail_transition-Inv m g t r v w =
      put_group-All WellFormed _ m.function_groups
        (enter_failure_state-WellFormed m.execution g t r w) v

  finish_move-Inv :
      (m : StateManager L) (g : FunctionGroupRecord) (t : FunctionGroupTransition)
      (r : TransitionRecord) (moved : Result FunctionGroupState)
      → Inv m
      → WellFormed g
      → ((s : FunctionGroupState)
          → moved ≡ from_value s
          → contains_state g.definition.allowed_states s ≡ true)
      → Inv (finish_move m g t r moved).0
  unfolding finish_move store_record
  finish_move-Inv m g t r (from_error e) v w h = fail_transition-Inv m g t _ v w
  finish_move-Inv m g t r (from_value s) v w h =
      put_group-All WellFormed _ m.function_groups (record { valid = w.valid; allowed = h s refl })
        v

  moved-allowed :
      (em : ExecutionManager L) (states : List FunctionGroupState) (to s : FunctionGroupState)
      → contains_state states to ≡ true
      → (transition_function_group em to).1 ≡ from_value s
      → contains_state states s ≡ true
  moved-allowed em states to s h e =
      subst (λ u. contains_state states u ≡ true) (sym (transition-requested em to s e)) h

  after_actions-Inv :
      (m : StateManager L) (g : FunctionGroupRecord) (t : FunctionGroupTransition)
      (r : TransitionRecord) (end : ActionsEnd)
      → Inv m
      → WellFormed g
      → contains_state g.definition.allowed_states r.request.requested_state ≡ true
      → Inv (after_actions m g t r end).0
  unfolding after_actions store_record
  after_actions-Inv m g t r (action_error e) v w h = v
  after_actions-Inv m g t r (required_failed message) v w h = fail_transition-Inv m g t _ v w
  after_actions-Inv m g t r actions_done v w h =
      finish_move-Inv _ g t r _ v w
        (λ s. moved-allowed m.execution g.definition.allowed_states r.request.requested_state s h)

  register-groups :
      (m : StateManager L) (d : FunctionGroupDefinition)
      → ((register_function_group m d).0.function_groups ≡ m.function_groups)
        ⊎ ((b : Bool) × (validate_definition d ≡ from_value b)
            × ((register_function_group m d).0.function_groups
                ≡ m.function_groups ++ (record { definition = d; state = d.initial_state } ∷ [])))
  unfolding register_function_group
  register-groups m d = ground arith

  register-Inv :
      (m : StateManager L) (d : FunctionGroupDefinition)
      → Inv m
      → Inv (register_function_group m d).0
  register-Inv m d v = elim (register-groups m d) [
    | inl e ↦ rw e v
    | inr (b, f, e) ↦ rw e (
        append-All WellFormed m.function_groups _ v (
          record {
            valid = validate_definition-true d b f;
            allowed = (validate_definition-value d b f).0;
          },
          tt,
        ))
  ]

  submit-groups :
      (m : StateManager L) (r : StateRequest)
      → (submit_state_request m r).0.function_groups ≡ m.function_groups
  unfolding submit_state_request
  submit-groups m r = ground arith

module _ {L : Type 0} (launcher : ProcessLauncher L) where
  apply_request-Inv :
      (m : StateManager L) (request : StateRequest) (sequence : ℕ)
      → Inv m
      → Inv (apply_request launcher m request sequence).0
  unfolding apply_transition store_record
  apply_request-Inv m request sequence v =
      apply_request_cases launcher (λ out. Inv out.0) m request sequence (λ _. v)
        λ g e.
          let w = find_group-All WellFormed request.function_group m.function_groups g v e in
          apply_to_group_cases launcher (λ out. Inv out.0) m g request sequence (λ _. v) v
            λ t f. after_actions-Inv _ g t _ _ v w (target-allowed g request.requested_state t w f)

  apply_next-Inv :
      (m : StateManager L) (ps : List PendingRequest) → Inv m → Inv (apply_next launcher m ps).0
  unfolding apply_next
  apply_next-Inv m [] v = v
  apply_next-Inv m (x ∷ xs) v = apply_request-Inv _ _ _ v

  step-Inv : (m : StateManager L) (c : Call) → Inv m → Inv (step launcher m c)
  unfolding step apply_next_request register_observer
  step-Inv m (registers d) v = register-Inv m d v
  step-Inv m (submits r) v = rw (submit-groups m r) v
  step-Inv m (requests r) v =
      request_function_group_state_cases launcher (λ out. Inv out.0) m r (λ e f. v)
        (apply_request-Inv _ r m.next_sequence v)
  step-Inv m applies v = apply_next-Inv m m.pending_requests v
  step-Inv m (observes none) v = v
  step-Inv m (observes (some o)) v = v

  run-Inv : (m : StateManager L) (cs : List Call) → Inv m → Inv (run launcher m cs)
  unfolding run
  run-Inv m [] v = v
  run-Inv m (c ∷ cs) v = run-Inv (step launcher m c) cs (step-Inv m c v)

  -- Over every history of calls from a new manager, each registered definition has passed
  -- `ValidateDefinition`, and the group's current state is one of its allowed states.
  pub run_allowed :
      (em : ExecutionManager L) (cs : List Call) (name : String) (g : FunctionGroupRecord)
      → find_group name (run launcher (new em) cs).function_groups ≡ some g
      → WellFormed g
  unfolding new
  run_allowed em cs name g e = find_group-All WellFormed name _ g (run-Inv (new em) cs tt) e
