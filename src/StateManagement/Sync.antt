-- ===== src/StateManagement/Sync.antt =====
-- Lemmas on the state of a single function group and the state that Execution Management keeps
-- (state_manager.cpp and execution_manager.cpp).
use open_autosar.Base.{
  ◌≡◌, refl, sym, subst, ◌⊎◌, inl, inr, false, String, List, [], ◌∷◌, ◌++◌, some, arith, eq_iff,
  Option-cases, Bool-cases, Result, from_value, from_error, Result-cases, is_nil, ErrorCode, not,
  ◌&&◌,
}
use open_autosar.Execution.{
  ExecutionManager, FunctionGroupState, same_state, ProcessRecord, ProcessState,
}
use open_autosar.Execution.Laws.{same_state-eq}
use open_autosar.Execution.Manager.{with_process, transition_function_group}
use open_autosar.StateManagement.{
  FunctionGroupDefinition, FunctionGroupTransition, StateRequest, TransitionRecord,
  FunctionGroupRecord, StateManager,
}
use open_autosar.StateManagement.Validation.{validate_request}
use open_autosar.StateManagement.Manager.{
  is_named, find_group, put_group, store_record, enter_failure_state, register_function_group,
  submit_state_request,
}
use open_autosar.StateManagement.Finish.{
  ActionsEnd, actions_done, action_error, required_failed, fail_transition, finish_move,
  after_actions,
}

-- A group that is the only one is in the state `s`.
abbrev pub Agrees : List FunctionGroupRecord → FunctionGroupState → Type 0
Agrees [] s = Unit {0}
Agrees (g ∷ []) s = g.state ≡ s
Agrees (g ∷ h ∷ gs) s = Unit {0}

put_group-Agrees :
    (gs : List FunctionGroupRecord) (g g' : FunctionGroupRecord) (name : String)
    (s s' : FunctionGroupState)
    → find_group name gs ≡ some g
    → g'.definition ≡ g.definition
    → (g'.state ≡ s') ⊎ ((g'.state ≡ g.state) × (s ≡ s'))
    → Agrees gs s
    → Agrees (put_group g' gs) s'
unfolding find_group put_group
put_group-Agrees [] g g' name s s' e d h a = tt
put_group-Agrees (x ∷ []) g g' name s s' e d h a =
    ground (arith, eq_iff x.definition.name name, eq_iff x.definition.name g'.definition.name)
put_group-Agrees (x ∷ y ∷ gs) g g' name s s' e d h a =
    elim (Bool-cases (is_named g'.definition.name x)) [
      | inl p ↦ rw (p, put_group) tt
      | inr p ↦ elim (Bool-cases (is_named g'.definition.name y)) [
        | inl q ↦ rw (p, q, put_group) tt
        | inr q ↦ rw (p, q, put_group) tt
      ]
    ]

append-Agrees :
    (gs : List FunctionGroupRecord) (g : FunctionGroupRecord) (s : FunctionGroupState)
    → (is_nil gs && not (same_state s g.state)) ≡ false
    → Agrees gs s
    → Agrees (gs ++ (g ∷ [])) s
append-Agrees [] g s h a = sym (same_state-eq s g.state (ground arith))
append-Agrees (x ∷ []) g s h a = tt
append-Agrees (x ∷ y ∷ gs) g s h a = tt

module _ {L : Type 0} where
  pub with_process-function_group :
      (em : ExecutionManager L) (name : String)
      (f : L → ProcessRecord → L × ProcessRecord × Result ProcessState)
      → (with_process em name f).0.function_group ≡ em.function_group
  unfolding with_process
  with_process-function_group em name f = ground arith

  abbrev pub Synced : StateManager L → Type 0
  Synced m = Agrees m.function_groups m.execution.function_group

  enter_failure_state-Synced :
      (em : ExecutionManager L) (g : FunctionGroupRecord) (t : FunctionGroupTransition)
      (r : TransitionRecord)
      → let o = enter_failure_state em g t r in
        (o.group.definition ≡ g.definition)
        × ((o.group.state ≡ o.execution.function_group)
            ⊎ ((o.group.state ≡ g.state) × (em.function_group ≡ o.execution.function_group)))
  unfolding enter_failure_state transition_function_group
  enter_failure_state-Synced em g t r = ground arith

  pub fail_transition-Synced :
      (m : StateManager L) (g : FunctionGroupRecord) (t : FunctionGroupTransition)
      (r : TransitionRecord) (name : String)
      → find_group name m.function_groups ≡ some g
      → Synced m
      → Synced (fail_transition m g t r).0
  unfolding fail_transition store_record
  fail_transition-Synced m g t r name e v =
      let k = enter_failure_state-Synced m.execution g t r in
      put_group-Agrees m.function_groups g _ name m.execution.function_group _ e k.0 k.1 v

  finish_move-Synced :
      (m : StateManager L) (g : FunctionGroupRecord) (t : FunctionGroupTransition)
      (r : TransitionRecord) (name : String) (old : FunctionGroupState)
      (moved : Result FunctionGroupState)
      → find_group name m.function_groups ≡ some g
      → Agrees m.function_groups old
      → ((s : FunctionGroupState) → moved ≡ from_value s → s ≡ m.execution.function_group)
      → ((e : ErrorCode) → moved ≡ from_error e → old ≡ m.execution.function_group)
      → Synced (finish_move m g t r moved).0
  unfolding finish_move store_record
  finish_move-Synced m g t r name old (from_error e) f a h k =
      fail_transition-Synced m g t _ name f (subst (Agrees m.function_groups) (k e refl) a)
  finish_move-Synced m g t r name old (from_value s) f a h k =
      put_group-Agrees m.function_groups g _ name old _ f refl (inl (h s refl)) a

  transition-value :
      (em : ExecutionManager L) (s f : FunctionGroupState)
      → (transition_function_group em s).1 ≡ from_value f
      → f ≡ (transition_function_group em s).0.function_group
  unfolding transition_function_group
  transition-value em s f h = ground arith

  transition-error :
      (em : ExecutionManager L) (s : FunctionGroupState) (e : ErrorCode)
      → (transition_function_group em s).1 ≡ from_error e
      → em.function_group ≡ (transition_function_group em s).0.function_group
  unfolding transition_function_group
  transition-error em s e h = ground arith

  pub after_actions-Synced :
      (m : StateManager L) (g : FunctionGroupRecord) (t : FunctionGroupTransition)
      (r : TransitionRecord) (name : String) (end : ActionsEnd)
      → find_group name m.function_groups ≡ some g
      → Synced m
      → Synced (after_actions m g t r end).0
  unfolding after_actions store_record
  after_actions-Synced m g t r name (action_error e) f v = v
  after_actions-Synced m g t r name (required_failed message) f v =
      fail_transition-Synced m g t _ name f v
  after_actions-Synced m g t r name actions_done f v =
      let to : FunctionGroupState = r.request.requested_state in
      finish_move-Synced _ g t r name m.execution.function_group _ f v
        (transition-value m.execution to) (transition-error m.execution to)

  register-shape :
      (m : StateManager L) (d : FunctionGroupDefinition)
      → let m' = (register_function_group m d).0 in
        (m'.execution ≡ m.execution)
        × ((m'.function_groups ≡ m.function_groups)
            ⊎ ((m'.function_groups
                  ≡ m.function_groups ++ (record { definition = d; state = d.initial_state } ∷ []))
                × ((is_nil m.function_groups
                      && not (same_state m.execution.function_group d.initial_state))
                    ≡ false)))
  unfolding register_function_group
  register-shape m d = ground arith

  pub register-Synced :
      (m : StateManager L) (d : FunctionGroupDefinition)
      → Synced m
      → Synced (register_function_group m d).0
  register-Synced m d v =
      let k = register-shape m d in
      elim k.1 [
        | inl e ↦ rw (e, k.0) v
        | inr (e, h) ↦ rw (e, k.0) (append-Agrees m.function_groups _ _ h v)
      ]

  pub submit-Synced :
      (m : StateManager L) (r : StateRequest) → Synced m → Synced (submit_state_request m r).0
  unfolding submit_state_request
  submit-Synced m r v = elim (Result-cases (validate_request r)) [
    | inr (e, f) ↦ rw (f, submit_state_request) v
    | inl (b, f) ↦ elim (Option-cases (find_group r.function_group m.function_groups)) [
      | inl h ↦ rw (f, h, submit_state_request) v
      | inr (g, h) ↦ rw (f, h, submit_state_request) v
    ]
  ]
