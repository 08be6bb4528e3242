-- ===== src/StateManagement/Manager.antt =====
-- state_manager.cpp: the methods of `StateManager`. A method returns the new manager and its
-- result.
use open_autosar.Base.{
  ℕ, ◌+◌, Bool, true, false, not, ◌&&◌, String, List, [], ◌∷◌, ◌++◌, map, Option, none, some,
  is_nil, find_if, any_of, str_eq, if◌then◌else◌, u64, Result, from_value, from_error,
}
use open_autosar.Execution.{ExecutionManager, FunctionGroupState, same_state}
use open_autosar.Execution.Manager.{transition_function_group}
use open_autosar.StateManagement.{
  FunctionGroupTransition, FunctionGroupDefinition, StateRequest, TransitionRecord,
  FunctionGroupRecord, StateManager,
}
use open_autosar.StateManagement.Validation.{
  make_error, contains_state, validate_definition, validate_request,
}

abbrev pub is_named : String → FunctionGroupRecord → Bool
is_named name g = str_eq g.definition.name name

unfoldable pub find_group : String → List FunctionGroupRecord → Option FunctionGroupRecord
find_group name gs = find_if (is_named name) gs

-- A write through the pointer that `FindFunctionGroup` returned for the group's name.
unfoldable pub put_group : FunctionGroupRecord → List FunctionGroupRecord → List FunctionGroupRecord
put_group g [] = []
put_group g (h ∷ hs) = if is_named g.definition.name h then g ∷ hs else h ∷ put_group g hs

module _ {L : Type 0} where
  unfoldable pub new : ExecutionManager L → StateManager L
  new execution = record {
    execution = execution;
    function_groups = [];
    pending_requests = [];
    history = [];
    observers = [];
    observed = [];
    next_sequence = 1;
  }

  -- `NotifyObservers`: every observer is called with the record, in order of registration.
  abbrev pub notify_observers : StateManager L → TransitionRecord → StateManager L
  notify_observers m r = record m { observed = m.observed ++ map (λ o. (o, r)) m.observers }

  unfoldable pub store_record : StateManager L → TransitionRecord → StateManager L
  store_record m r = notify_observers (record m { history = m.history ++ (r ∷ []) }) r

  unfoldable pub register_function_group :
      StateManager L → FunctionGroupDefinition → StateManager L × Result Bool
  register_function_group m d = elim (validate_definition d) [
    | from_error e ↦ (m, from_error e)
    | from_value _ ↦
        if any_of (is_named d.name) m.function_groups
        then (m, from_error (make_error "function group is already registered"))
        else if is_nil m.function_groups
            && not (same_state m.execution.function_group d.initial_state)
        then (m, from_error (make_error "initial state does not match Execution Management"))
        else (
          record m {
            function_groups =
                m.function_groups ++ (record { definition = d; state = d.initial_state } ∷ []);
          },
          from_value true,
        )
  ]

  unfoldable pub submit_state_request : StateManager L → StateRequest → StateManager L × Result ℕ
  submit_state_request m r = elim (validate_request r) [
    | from_error e ↦ (m, from_error e)
    | from_value _ ↦ elim (find_group r.function_group m.function_groups) [
      | none ↦ (m, from_error (make_error "function group is not registered"))
      | some _ ↦ (
        record m {
          next_sequence = u64 (m.next_sequence + 1);
          pending_requests =
              m.pending_requests ++ (record { sequence = m.next_sequence; request = r } ∷ []);
        },
        from_value m.next_sequence,
      )
    ]
  ]

  unfoldable pub current_state : StateManager L → String → Result FunctionGroupState
  current_state m name = elim (find_group name m.function_groups) [
    | none ↦ from_error (make_error "function group is not registered")
    | some g ↦ from_value g.state
  ]

  unfoldable pub pending : StateManager L → List StateRequest
  pending m = map (λ p. p.request) m.pending_requests

  -- `none` is an empty `std::function`.
  unfoldable pub register_observer : StateManager L → Option ℕ → StateManager L × Result Bool
  register_observer m none = (m, from_error (make_error "transition observer is invalid"))
  register_observer m (some o) = (record m { observers = m.observers ++ (o ∷ []) }, from_value true)

-- What `EnterFailureState` leaves behind its references, and its result.
pub record FailureOutcome (L : Type 0) : Type 0 where
  pub execution : ExecutionManager L
  pub group : FunctionGroupRecord
  pub transition_record : TransitionRecord
  pub result : Result Bool

module _ {L : Type 0} where
  unfoldable pub enter_failure_state :
      ExecutionManager L
      → FunctionGroupRecord
      → FunctionGroupTransition
      → TransitionRecord
      → FailureOutcome L
  enter_failure_state em g t r =
      if not t.enter_degraded_on_failure
      then record { execution = em; group = g; transition_record = r; result = from_value false }
      else if not (contains_state g.definition.allowed_states t.failure_state)
      then record {
        execution = em;
        group = g;
        transition_record = r;
        result = from_error (make_error "failure state is not allowed");
      }
      else if same_state g.state t.failure_state
      then record {
        execution = em;
        group = g;
        transition_record = record r { resulting_state = g.state };
        result = from_value true;
      }
      else let degraded = transition_function_group em t.failure_state in
        elim degraded.1 [
          | from_error e ↦ record {
            execution = degraded.0;
            group = g;
            transition_record = r;
            result = from_error e;
          }
          | from_value s ↦ record {
            execution = degraded.0;
            group = record g { state = s };
            transition_record = record r { resulting_state = s };
            result = from_value true;
          }
        ]
