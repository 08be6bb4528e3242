-- ===== src/StateManagement/Settled.antt =====
-- The state that a group is in after a request, on success and on failure (state_manager.cpp).
use open_autosar.Base.{
  ℕ, ◌≡◌, refl, sym, ap, ◌∙◌, ◌⊎◌, inl, inr, true, String, some, arith, Result, from_value,
  from_error, ErrorCode,
}
use open_autosar.Process.{ProcessLauncher}
use open_autosar.Execution.{ExecutionManager, FunctionGroupState}
use open_autosar.Execution.Laws.{same_state-eq}
use open_autosar.Execution.Manager.{transition_function_group}
use open_autosar.StateManagement.{
  FunctionGroupDefinition, FunctionGroupTransition, StateRequest, TransitionRecord,
  FunctionGroupRecord, StateManager,
}
use open_autosar.StateManagement.Validation.{find_transition}
use open_autosar.StateManagement.Manager.{find_group, store_record, enter_failure_state}
use open_autosar.StateManagement.Finish.{
  ActionsEnd, actions_done, action_error, required_failed, fail_transition, finish_move,
  after_actions,
}
use open_autosar.StateManagement.Apply.{apply_transition, apply_request}
use open_autosar.StateManagement.Cases.{apply_to_group_cases}
use open_autosar.StateManagement.Outcome.{transition-requested}
use open_autosar.StateManagement.Groups.{find_group-named, find_group-put_self}

-- The failure state that the transition from `g`'s state asks for.
abbrev pub Degrades : FunctionGroupRecord → FunctionGroupState → FunctionGroupState → Type 0
Degrades g to s =
    (t : FunctionGroupTransition) × (find_transition g.definition g.state to ≡ some t)
    × (t.enter_degraded_on_failure ≡ true)
    × (s ≡ t.failure_state)

-- The group is found under its name with the same definition. It is in the state `to` if a record
-- was returned; on an error it is where it was, or in the failure state of the transition.
abbrev pub Settled :
    {L : Type 0}
    → FunctionGroupRecord
    → FunctionGroupState
    → String
    → StateManager L × Result TransitionRecord
    → Type 0
Settled g to name out =
    (g' : FunctionGroupRecord) × (find_group name out.0.function_groups ≡ some g')
    × (g'.definition ≡ g.definition)
    × (((r : TransitionRecord) × (out.1 ≡ from_value r) × (g'.state ≡ to))
        ⊎ ((e : ErrorCode) × (out.1 ≡ from_error e)
            × ((g'.state ≡ g.state) ⊎ Degrades g to g'.state)))

module _ {L : Type 0} (g : FunctionGroupRecord) (t : FunctionGroupTransition)
    (to : FunctionGroupState) (name : String)
    (found : find_transition g.definition g.state to ≡ some t) where
  enter_failure_state-group :
      (em : ExecutionManager L) (r : TransitionRecord)
      → let g' = (enter_failure_state em g t r).group in
        (g'.definition ≡ g.definition)
        × ((g'.state ≡ g.state)
            ⊎ ((t.enter_degraded_on_failure ≡ true) × (g'.state ≡ t.failure_state)))
  unfolding enter_failure_state transition_function_group
  enter_failure_state-group em r = ground arith

  fail_transition-Settled :
      (m : StateManager L) (r : TransitionRecord)
      → find_group name m.function_groups ≡ some g
      → Settled g to name (fail_transition m g t r)
  unfolding fail_transition store_record
  fail_transition-Settled m r e =
      let k = enter_failure_state-group m.execution r in
      (
        (enter_failure_state m.execution g t r).group,
        find_group-put_self name m.function_groups g _ e (
            ap (λ (d : FunctionGroupDefinition). d.name) k.0
            ∙ find_group-named name m.function_groups g e),
        k.0,
        inr (_, refl, elim k.1 [ inl h ↦ inl h | inr h ↦ inr (t, found, h.0, h.1) ]),
      )

  finish_move-Settled :
      (m : StateManager L) (r : TransitionRecord) (moved : Result FunctionGroupState)
      → find_group name m.function_groups ≡ some g
      → ((s : FunctionGroupState) → moved ≡ from_value s → s ≡ to)
      → Settled g to name (finish_move m g t r moved)
  unfolding finish_move store_record
  finish_move-Settled m r (from_error e) f h = fail_transition-Settled m _ f
  finish_move-Settled m r (from_value s) f h = (
    record g { state = s },
    find_group-put_self name m.function_groups g _ f (find_group-named name m.function_groups g f),
    refl,
    inl (_, refl, h s refl),
  )

  after_actions-Settled :
      (m : StateManager L) (r : TransitionRecord) (end : ActionsEnd)
      → find_group name m.function_groups ≡ some g
      → r.request.requested_state ≡ to
      → Settled g to name (after_actions m g t r end)
  unfolding after_actions store_record
  after_actions-Settled m r (action_error e) f h = (g, f, refl, inr (e, refl, inl refl))
  after_actions-Settled m r (required_failed message) f h = fail_transition-Settled m _ f
  after_actions-Settled m r actions_done f h =
      finish_move-Settled _ r _ f
        (λ s e. transition-requested m.execution r.request.requested_state s e ∙ h)

module _ {L : Type 0} (launcher : ProcessLauncher L) where
  -- A request for a registered group leaves the group registered under its definition. If it
  -- returns a record, the group is in the requested state. If it returns an error, the group is
  -- in its old state, or in the failure state of the transition that the request asked for, and
  -- then that transition has `enter_degraded_on_failure`.
  pub apply_request-Settled :
      (m : StateManager L) (g : FunctionGroupRecord) (request : StateRequest) (sequence : ℕ)
      → find_group request.function_group m.function_groups ≡ some g
      → Settled g request.requested_state request.function_group
          (apply_request launcher m request sequence)
  unfolding apply_request apply_transition store_record
  apply_request-Settled m g request sequence e =
      rw (e, apply_request)
        (apply_to_group_cases launcher (Settled g request.requested_state request.function_group) m
          g request sequence (λ s. (g, e, refl, inl (_, refl, sym (same_state-eq _ _ s))))
          (g, e, refl, inr (_, refl, inl refl))
          (λ t f.
            after_actions-Settled g t request.requested_state request.function_group f _ _ _ e
              refl))
