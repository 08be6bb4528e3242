-- ===== src/Execution/Reachability.antt =====
-- Which states of the function group lead to which (`TransitionFunctionGroup` of
-- execution_manager.cpp).
use open_autosar.Base.{
  ◌≡◌, refl, ◌↔◌, ◌∙◌, ap, subst, Bool, true, not, ◌&&◌, ◌||◌, List, [], ◌∷◌, ◌++◌, arith,
  if◌then◌else◌,
}
use open_autosar.Execution.{
  FunctionGroupState, off, startup, driving_ready, diagnostic, parking, update, shutdown,
  ExecutionManager, same_state,
}
use open_autosar.Execution.Manager.{is_allowed_transition, transition_function_group}
use open_autosar.Execution.Transitions.{◌⟶◌, boot, halt, ◌⟶*◌, here, next, requests, requests-⟶*}

-- Every state is reachable from itself, `Shutdown` leads nowhere else, nothing leads back to
-- `Off`, only `Off` leads to `Startup`, and all else is reachable.
unfoldable pub can_reach : FunctionGroupState → FunctionGroupState → Bool
can_reach s t =
    same_state s t
    || (not (same_state s shutdown)
        && not (same_state t off)
        && (not (same_state t startup) || same_state s off))

can_reach_refl : (s : FunctionGroupState) → can_reach s s ≡ true
unfolding can_reach
can_reach_refl s = ground arith

can_reach-arrow :
    (s : FunctionGroupState) {t u : FunctionGroupState}
    → t ⟶ u
    → can_reach s t ≡ true
    → can_reach s u ≡ true
unfolding can_reach
can_reach-arrow s boot h = ground arith
can_reach-arrow s (halt n) h = ground arith
can_reach-arrow s _ h = ground arith

can_reach-path : {s t : FunctionGroupState} → s ⟶* t → can_reach s t ≡ true
can_reach-path {s} here = can_reach_refl s
can_reach-path {s} (next r a) = can_reach-arrow s a (can_reach-path r)

-- The state after requests, each refused or granted.
settle : FunctionGroupState → List FunctionGroupState → FunctionGroupState
settle s [] = s
settle s (t ∷ ts) = settle (if is_allowed_transition s t then t else s) ts

-- The way back to `DrivingReady`, and the ways on from there.
homeward : FunctionGroupState → List FunctionGroupState
homeward off = startup ∷ driving_ready ∷ []
homeward driving_ready = []
homeward startup = driving_ready ∷ []
homeward parking = driving_ready ∷ []
homeward FunctionGroupState.degraded = driving_ready ∷ []
homeward _ = parking ∷ driving_ready ∷ []

onward : FunctionGroupState → List FunctionGroupState
onward diagnostic = parking ∷ diagnostic ∷ []
onward update = parking ∷ update ∷ []
onward t = t ∷ []

way : FunctionGroupState → FunctionGroupState → List FunctionGroupState
unfolding homeward onward
way s t = if same_state s t || same_state t startup then t ∷ [] else homeward s ++ onward t

settle-way : (s t : FunctionGroupState) → can_reach s t ≡ true → settle s (way s t) ≡ t
unfolding settle way can_reach is_allowed_transition homeward onward
settle-way s t h = ground arith

module _ {L : Type 0} where
  transition-group :
      (m : ExecutionManager L) (t : FunctionGroupState)
      → (transition_function_group m t).0.function_group
        ≡ (if is_allowed_transition m.function_group t then t else m.function_group)
  unfolding transition_function_group
  transition-group m t = ground arith

  requests-settle :
      (m : ExecutionManager L) (ss : List FunctionGroupState)
      → (requests m ss).function_group ≡ settle m.function_group ss
  unfolding requests settle
  requests-settle m [] = refl
  requests-settle m (t ∷ ss) =
      requests-settle (transition_function_group m t).0 ss
      ∙ ap (λ s. settle s ss) (transition-group m t)

  -- Some requests lead from the current state of the function group to a second state exactly if
  -- the two are the same, or if the current one is not `Shutdown`, the second is not `Off`, and the
  -- second is not `Startup` unless the current one is `Off`.
  pub requests-can_reach :
      (m : ExecutionManager L) (t : FunctionGroupState)
      → ((ss : List FunctionGroupState) × ((requests m ss).function_group ≡ t))
        ↔ (can_reach m.function_group t ≡ true)
  requests-can_reach m t = (
    λ (ss, e).
        subst (λ u. can_reach m.function_group u ≡ true) e (can_reach-path (requests-⟶* m ss)),
    λ h. (
      way m.function_group t,
      requests-settle m (way m.function_group t) ∙ settle-way m.function_group t h,
    ),
  )
