-- ===== src/StateManagement/Outcome.antt =====
-- What a call of `ApplyRequest` records and returns (state_manager.cpp).
use open_autosar.Base.{
  ℕ, ◌≡◌, refl, sym, ◌∙◌, ◌⊎◌, inl, inr, Bool, true, false, [], ◌∷◌, ◌++◌, map, some, arith, Result,
  from_value, from_error, ErrorCode,
}
use open_autosar.Process.{ProcessLauncher}
use open_autosar.Execution.{ExecutionManager, FunctionGroupState}
use open_autosar.Execution.Laws.{same_state-eq}
use open_autosar.Execution.Manager.{transition_function_group}
use open_autosar.StateManagement.{
  StateRequest, TransitionRecord, FunctionGroupRecord, FunctionGroupTransition, StateManager,
}
use open_autosar.StateManagement.Manager.{find_group, store_record, enter_failure_state}
use open_autosar.StateManagement.Finish.{
  ActionsEnd, actions_done, action_error, required_failed, note_degraded, failed_record,
  fail_transition, finish_move, after_actions,
}
use open_autosar.StateManagement.Cases.{same_record, refused_record, apply_to_group_cases}
use open_autosar.StateManagement.Apply.{apply_transition, apply_to_group, apply_request}

-- One record `r` of the request goes to the history and to every observer, and the call returns
-- it if it is completed and an error if not.
abbrev pub Logged :
    {L : Type 0}
    → StateManager L
    → StateRequest
    → ℕ
    → StateManager L × Result TransitionRecord
    → TransitionRecord
    → Type 0
Logged m request sequence out r =
    (out.0.history ≡ m.history ++ (r ∷ []))
    × (out.0.observed ≡ m.observed ++ map (λ o. (o, r)) m.observers)
    × (out.0.pending_requests ≡ m.pending_requests)
    × (out.0.next_sequence ≡ m.next_sequence)
    × (r.sequence ≡ sequence)
    × (r.request ≡ request)
    × (((r.completed ≡ true)
          × (r.resulting_state ≡ request.requested_state)
          × (out.1 ≡ from_value r))
        ⊎ ((r.completed ≡ false) × (e : ErrorCode) × (out.1 ≡ from_error e)))

note_degraded-keeps :
    (r : TransitionRecord) (b : Result Bool)
    → let r' = note_degraded r b in
      (r'.sequence ≡ r.sequence) × (r'.request ≡ r.request) × (r'.completed ≡ r.completed)
unfolding note_degraded
note_degraded-keeps r b = ground arith

module _ {L : Type 0} where
  enter_failure_state-keeps :
      (em : ExecutionManager L) (g : FunctionGroupRecord) (t : FunctionGroupTransition)
      (r : TransitionRecord)
      → let r' = (enter_failure_state em g t r).transition_record in
        (r'.sequence ≡ r.sequence) × (r'.request ≡ r.request) × (r'.completed ≡ r.completed)
  unfolding enter_failure_state
  enter_failure_state-keeps em g t r = ground arith

  fail_transition-Logged :
      (m : StateManager L) (g : FunctionGroupRecord) (t : FunctionGroupTransition)
      (r : TransitionRecord)
      → r.completed ≡ false
      → Logged m r.request r.sequence (fail_transition m g t r) (failed_record m g t r)
  unfolding fail_transition failed_record store_record
  fail_transition-Logged m g t r e =
      let o = enter_failure_state m.execution g t r in
      let k = enter_failure_state-keeps m.execution g t r in
      let n = note_degraded-keeps o.transition_record o.result in
      (refl, refl, refl, refl, n.0 ∙ k.0, n.1 ∙ k.1, inr (n.2 ∙ k.2 ∙ e, _, refl))

  finish_move-Logged :
      (m : StateManager L) (g : FunctionGroupRecord) (t : FunctionGroupTransition)
      (r : TransitionRecord) (moved : Result FunctionGroupState)
      → r.completed ≡ false
      → ((s : FunctionGroupState) → moved ≡ from_value s → s ≡ r.request.requested_state)
      → (r' : TransitionRecord) × Logged m r.request r.sequence (finish_move m g t r moved) r'
  unfolding finish_move store_record
  finish_move-Logged m g t r (from_error e) h k =
      (_, fail_transition-Logged m g t (record r { failure = e.message }) h)
  finish_move-Logged m g t r (from_value s) h k =
      (_, (refl, refl, refl, refl, refl, refl, inl (refl, k s refl, refl)))

  pub transition-requested :
      (em : ExecutionManager L) (s t : FunctionGroupState)
      → (transition_function_group em s).1 ≡ from_value t
      → t ≡ s
  unfolding transition_function_group
  transition-requested em s t e = ground arith

  after_actions-Logged :
      (m : StateManager L) (g : FunctionGroupRecord) (t : FunctionGroupTransition)
      (r : TransitionRecord) (end : ActionsEnd)
      → r.completed ≡ false
      → (r' : TransitionRecord) × Logged m r.request r.sequence (after_actions m g t r end) r'
  unfolding after_actions store_record
  after_actions-Logged m g t r (action_error e) h =
      (_, (refl, refl, refl, refl, refl, refl, inr (h, e, refl)))
  after_actions-Logged m g t r (required_failed message) h =
      (_, fail_transition-Logged m g t (record r { failure = message }) h)
  after_actions-Logged m g t r actions_done h =
      let moved = transition_function_group m.execution r.request.requested_state in
      finish_move-Logged (record m { execution = moved.0 }) g t r moved.1 h
        (transition-requested m.execution r.request.requested_state)

module _ {L : Type 0} (launcher : ProcessLauncher L) where
  apply_to_group-Logged :
      (m : StateManager L) (g : FunctionGroupRecord) (request : StateRequest) (sequence : ℕ)
      → (r : TransitionRecord) × Logged m request sequence
          (apply_to_group launcher m g request sequence)
          r
  unfolding apply_transition store_record
  apply_to_group-Logged m g request sequence =
      apply_to_group_cases launcher
        (λ out. (r : TransitionRecord) × Logged m request sequence out r) m g request sequence
        (λ e. (
          same_record request sequence g,
          (refl, refl, refl, refl, refl, refl, inl (refl, sym (same_state-eq _ _ e), refl)),
        ))
        (
          refused_record request sequence g,
          (refl, refl, refl, refl, refl, refl, inr (refl, _, refl)),
        )
        (λ t f. after_actions-Logged _ g t _ _ refl)

  -- A request for a registered group, whatever becomes of it, adds one record with its sequence
  -- number to the history, shows the record to every observer, and leaves the pending requests and
  -- the counter alone. Either the record is completed, in the requested state, and is returned, or
  -- it is not completed and an error is returned.
  pub apply_request-Logged :
      (m : StateManager L) (g : FunctionGroupRecord) (request : StateRequest) (sequence : ℕ)
      → find_group request.function_group m.function_groups ≡ some g
      → (r : TransitionRecord) × Logged m request sequence
          (apply_request launcher m request sequence)
          r
  unfolding apply_request
  apply_request-Logged m g request sequence e =
      rw (e, apply_request) (apply_to_group-Logged m g request sequence)
