-- ===== src/StateManagement/Definitions.antt =====
-- What `ValidateDefinition` guarantees (state_manager.cpp).
use open_autosar.Base.{
  ◌≡◌, ap, ◌∙◌, subst, inl, inr, Bool, true, List, [], ◌∷◌, some, arith, Bool-cases, find_if,
  Result, from_value,
}
use open_autosar.Execution.{FunctionGroupState}
use open_autosar.Execution.Laws.{same_state-eq}
use open_autosar.StateManagement.{
  ProcessTransitionAction, FunctionGroupTransition, FunctionGroupDefinition, FunctionGroupRecord,
}
use open_autosar.StateManagement.Validation.{
  contains_state, is_transition, find_transition, validate_actions, validate_transitions,
  validate_definition,
}

validate_actions-value :
    (as' : List ProcessTransitionAction) (rest : Result Bool) (b : Bool)
    → validate_actions as' rest ≡ from_value b
    → rest ≡ from_value b
unfolding validate_actions
validate_actions-value [] rest b h = h
validate_actions-value (a ∷ as') rest b h = ground (arith, validate_actions-value as' rest b)

validate_transitions-head :
    (allowed : List FunctionGroupState) (x : FunctionGroupTransition)
    (xs : List FunctionGroupTransition) (b : Bool)
    → validate_transitions allowed (x ∷ xs) ≡ from_value b
    → (contains_state allowed x.to ≡ true) × (validate_transitions allowed xs ≡ from_value b)
unfolding validate_transitions
validate_transitions-head allowed x xs b h =
    ground (arith, validate_actions-value x.process_actions (validate_transitions allowed xs) b)

target :
    (from to : FunctionGroupState) (x : FunctionGroupTransition)
    → is_transition from to x ≡ true
    → x.to ≡ to
target from to x h = same_state-eq x.to to (ground arith)

-- Every transition of a valid definition leads to an allowed state.
validate_transitions-target :
    (allowed : List FunctionGroupState) (ts : List FunctionGroupTransition)
    (from to : FunctionGroupState) (t : FunctionGroupTransition) (b : Bool)
    → validate_transitions allowed ts ≡ from_value b
    → find_if (is_transition from to) ts ≡ some t
    → contains_state allowed to ≡ true
validate_transitions-target allowed [] from to t b h f = absurd (ground arith)
validate_transitions-target allowed (x ∷ xs) from to t b h f =
    let k = validate_transitions-head allowed x xs b h in
    elim (Bool-cases (is_transition from to x)) [
      | inl e ↦ subst (λ s. contains_state allowed s ≡ true) (target from to x e) k.0
      | inr e ↦ validate_transitions-target allowed xs from to t b k.1 (ground arith)
    ]

-- A registered definition is valid, and its group is in one of its allowed states.
pub record WellFormed (g : FunctionGroupRecord) : Type 0 where
  pub valid : validate_definition g.definition ≡ from_value true
  pub allowed : contains_state g.definition.allowed_states g.state ≡ true

validate_transitions-true :
    (allowed : List FunctionGroupState) (ts : List FunctionGroupTransition) (b : Bool)
    → validate_transitions allowed ts ≡ from_value b
    → b ≡ true
unfolding validate_transitions
validate_transitions-true allowed [] b h = ground arith
validate_transitions-true allowed (t ∷ ts) b h =
    validate_transitions-true allowed ts b (validate_transitions-head allowed t ts b h).1

pub validate_definition-value :
    (d : FunctionGroupDefinition) (b : Bool)
    → validate_definition d ≡ from_value b
    → (contains_state d.allowed_states d.initial_state ≡ true)
      × (validate_transitions d.allowed_states d.transitions ≡ from_value b)
unfolding validate_definition
validate_definition-value d b h = ground arith

pub validate_definition-true :
    (d : FunctionGroupDefinition) (b : Bool)
    → validate_definition d ≡ from_value b
    → validate_definition d ≡ from_value true
validate_definition-true d b h =
    h
    ∙ ap from_value (
        validate_transitions-true d.allowed_states d.transitions b
          (validate_definition-value d b h).1)

pub target-allowed :
    (g : FunctionGroupRecord) (to : FunctionGroupState) (t : FunctionGroupTransition)
    → WellFormed g
    → find_transition g.definition g.state to ≡ some t
    → contains_state g.definition.allowed_states to ≡ true
unfolding find_transition
target-allowed g to t w f =
    validate_transitions-target g.definition.allowed_states g.definition.transitions g.state to t
      true (validate_definition-value g.definition true w.valid).1 f
