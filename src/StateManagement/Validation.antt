-- ===== src/StateManagement/Validation.antt =====
-- state_manager.cpp: `ValidateDefinition`, `ValidateRequest` and the searches in a definition.
use open_autosar.Base.{
  Bool, true, not, ◌&&◌, ◌||◌, String, List, [], ◌∷◌, Option, is_empty, is_nil, any_of, find_if,
  if◌then◌else◌, Result, from_value, from_error, ErrorCode,
}
use open_autosar.Execution.{FunctionGroupState, same_state}
use open_autosar.StateManagement.{
  ProcessTransitionAction, FunctionGroupTransition, FunctionGroupDefinition, StateRequest,
}

abbrev pub make_error : String → ErrorCode
make_error message = record { domain = "state-management"; message = message }

unfoldable pub contains_state : List FunctionGroupState → FunctionGroupState → Bool
contains_state states state = any_of (λ s. same_state s state) states

abbrev pub is_transition : FunctionGroupState → FunctionGroupState → FunctionGroupTransition → Bool
is_transition from to t = same_state t.from from && same_state t.to to

unfoldable pub find_transition :
    FunctionGroupDefinition
    → FunctionGroupState
    → FunctionGroupState
    → Option FunctionGroupTransition
find_transition definition from to = find_if (is_transition from to) definition.transitions

-- The inner loop of `ValidateDefinition`, and what follows it, `rest`.
unfoldable pub validate_actions : List ProcessTransitionAction → Result Bool → Result Bool
validate_actions [] rest = rest
validate_actions (a ∷ as') rest =
    if is_empty a.process_name
    then from_error (make_error "transition process action has no process")
    else validate_actions as' rest

-- The loop of `ValidateDefinition` over the transitions.
unfoldable pub validate_transitions :
    List FunctionGroupState → List FunctionGroupTransition → Result Bool
validate_transitions allowed [] = from_value true
validate_transitions allowed (t ∷ ts) =
    let rest = validate_transitions allowed ts in
    if not (contains_state allowed t.from) || not (contains_state allowed t.to)
    then from_error (make_error "transition references an unknown state")
    else if t.enter_degraded_on_failure && not (contains_state allowed t.failure_state)
    then from_error (make_error "transition failure state is unknown")
    else validate_actions t.process_actions rest

unfoldable pub validate_definition : FunctionGroupDefinition → Result Bool
validate_definition d =
    if is_empty d.name
    then from_error (make_error "function group name is empty")
    else if is_nil d.allowed_states
    then from_error (make_error "function group has no states")
    else if not (contains_state d.allowed_states d.initial_state)
    then from_error (make_error "initial state is not part of the function group")
    else if is_nil d.transitions
    then from_error (make_error "function group has no transitions")
    else validate_transitions d.allowed_states d.transitions

unfoldable pub validate_request : StateRequest → Result Bool
validate_request r =
    if is_empty r.requester
    then from_error (make_error "state requester is empty")
    else if is_empty r.function_group
    then from_error (make_error "state request has no function group")
    else if is_empty r.reason
    then from_error (make_error "state request has no reason")
    else from_value true
