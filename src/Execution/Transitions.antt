-- ===== src/Execution/Transitions.antt =====
-- The function group state machine of `IsAllowedTransition` and `TransitionFunctionGroup`
-- (execution_manager.cpp), as a diagram.
use open_autosar.Base.{◌≡◌, refl, ◌≢◌, ◌⊎◌, true, List, [], ◌∷◌, subst, arith, Bool-cases, inl, inr}
use open_autosar.Execution.{
  FunctionGroupState, off, startup, driving_ready, diagnostic, parking, update, shutdown,
  ExecutionManager,
}
use open_autosar.Execution.Manager.{is_allowed_transition, transition_function_group}

-- The arrows between two different states.
infix 40 ◌⟶◌ ◌⟶*◌
pub data ◌⟶◌ : FunctionGroupState → FunctionGroupState → Type 0 where
  boot : off ⟶ startup
  ready : startup ⟶ driving_ready
  inspect : startup ⟶ diagnostic
  limp : startup ⟶ FunctionGroupState.degraded
  park : driving_ready ⟶ parking
  fault : driving_ready ⟶ FunctionGroupState.degraded
  close : diagnostic ⟶ parking
  drive : parking ⟶ driving_ready
  examine : parking ⟶ diagnostic
  renew : parking ⟶ update
  finish : update ⟶ parking
  recover : FunctionGroupState.degraded ⟶ driving_ready
  retreat : FunctionGroupState.degraded ⟶ parking
  halt : {s : FunctionGroupState} → s ≢ shutdown → s ⟶ shutdown

pub data ◌⟶*◌ (s : FunctionGroupState) : FunctionGroupState → Type 0 where
  here : s ⟶* s
  next : {t u : FunctionGroupState} → s ⟶* t → t ⟶ u → s ⟶* u

ruleset arrows = (
  boot, ready, inspect, limp, park, fault, close, drive, examine, renew, finish, recover, retreat,
  halt,
)

-- What `IsAllowedTransition` accepts is a repetition of the state or an arrow.
allowed_arrow : (s t : FunctionGroupState) → is_allowed_transition s t ≡ true → (s ≡ t) ⊎ (s ⟶ t)
unfolding is_allowed_transition
allowed_arrow off off h = inl refl
allowed_arrow _ _ h = grind (arith, arrows)

then : {s t u : FunctionGroupState} → s ⟶* t → (t ≡ u) ⊎ (t ⟶ u) → s ⟶* u
then {s} r (inl e) = subst (λ v. s ⟶* v) e r
then r (inr a) = next r a

module _ {L : Type 0} where
  -- A history of calls of `TransitionFunctionGroup`.
  unfoldable pub requests : ExecutionManager L → List FunctionGroupState → ExecutionManager L
  requests m [] = m
  requests m (s ∷ ss) = requests (transition_function_group m s).0 ss

  transition-arrow :
      (m : ExecutionManager L) (t : FunctionGroupState)
      → (m.function_group ≡ (transition_function_group m t).0.function_group)
        ⊎ (m.function_group ⟶ (transition_function_group m t).0.function_group)
  unfolding transition_function_group
  transition-arrow m t = elim (Bool-cases (is_allowed_transition m.function_group t)) [
    | inl e ↦ rw e (allowed_arrow m.function_group t e)
    | inr e ↦ rw e (inl refl)
  ]

  requests_from :
      {s : FunctionGroupState} (m : ExecutionManager L) (ss : List FunctionGroupState)
      → s ⟶* m.function_group
      → s ⟶* (requests m ss).function_group
  unfolding requests
  requests_from m [] r = r
  requests_from m (t ∷ ss) r =
      requests_from (transition_function_group m t).0 ss (then r (transition-arrow m t))

  -- Whatever is requested, the function group moves along arrows of the diagram only.
  pub requests-⟶* :
      (m : ExecutionManager L) (ss : List FunctionGroupState)
      → m.function_group ⟶* (requests m ss).function_group
  requests-⟶* m ss = requests_from m ss here
