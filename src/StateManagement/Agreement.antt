-- ===== src/StateManagement/Agreement.antt =====
-- The state of a single function group and the state that Execution Management keeps
-- (state_manager.cpp and execution_manager.cpp).
use open_autosar.Base.{
  ℕ, ◌≡◌, refl, ◌∙◌, subst, inl, inr, List, [], ◌∷◌, none, some, arith, Bool-cases, Result-cases,
  not, ◌&&◌,
}
use open_autosar.Process.{ProcessLauncher}
use open_autosar.Execution.{ExecutionManager}
use open_autosar.Execution.Manager.{
  with_process, start_process, start_record, stop_record, stop_process,
}
use open_autosar.StateManagement.{
  ProcessTransitionAction, StateRequest, FunctionGroupRecord, PendingRequest, StateManager,
  ProcessActionReport,
}
use open_autosar.StateManagement.Manager.{new, store_record, register_observer}
use open_autosar.StateManagement.Apply.{
  apply_process_action, apply_actions, apply_transition, apply_request, apply_next,
  apply_next_request,
}
use open_autosar.StateManagement.Cases.{
  apply_to_group_cases, apply_request_cases, request_function_group_state_cases,
}
use open_autosar.StateManagement.Sync.{
  Agrees, Synced, with_process-function_group, after_actions-Synced, register-Synced, submit-Synced,
}
use open_autosar.StateManagement.Calls.{
  Call, registers, submits, applies, requests, observes, step, run,
}

module _ {L : Type 0} (launcher : ProcessLauncher L) where
  apply_process_action-function_group :
      (em : ExecutionManager L) (a : ProcessTransitionAction)
      → (apply_process_action launcher em a).0.function_group ≡ em.function_group
  unfolding apply_process_action start_process stop_process
  apply_process_action-function_group em a = ground (
    arith,
    with_process-function_group em a.process_name (start_record launcher),
    with_process-function_group em a.process_name (stop_record launcher),
    with_process-function_group (with_process em a.process_name (stop_record launcher)).0
        a.process_name (start_record launcher),
  )

  apply_actions-function_group :
      (em : ExecutionManager L) (as' : List ProcessTransitionAction)
      (reports : List ProcessActionReport)
      → (apply_actions launcher em as' reports).0.function_group ≡ em.function_group
  unfolding apply_actions
  apply_actions-function_group em [] reports = refl
  apply_actions-function_group em (a ∷ as') reports =
      elim (Result-cases (apply_process_action launcher em a).1) [
        | inr (e, f) ↦ rw (f, apply_actions) (apply_process_action-function_group em a)
        | inl (p, f) ↦ elim (Bool-cases (not p.success && a.required)) [
          | inl h ↦ rw (f, h, apply_actions) (apply_process_action-function_group em a)
          | inr h ↦
              rw (f, h, apply_actions)
                (apply_actions-function_group (apply_process_action launcher em a).0 as' _
                  ∙ apply_process_action-function_group em a)
        ]
      ]

  apply_request-Synced :
      (m : StateManager L) (request : StateRequest) (sequence : ℕ)
      → Synced m
      → Synced (apply_request launcher m request sequence).0
  unfolding apply_transition store_record
  apply_request-Synced m request sequence v =
      apply_request_cases launcher (λ out. Synced out.0) m request sequence (λ _. v)
        λ g e.
          apply_to_group_cases launcher (λ out. Synced out.0) m g request sequence (λ _. v) v
            λ t f.
              after_actions-Synced _ g t _ request.function_group _ e
                (rw (apply_actions-function_group m.execution t.process_actions []) v)

  apply_next-Synced :
      (m : StateManager L) (ps : List PendingRequest)
      → Synced m
      → Synced (apply_next launcher m ps).0
  unfolding apply_next
  apply_next-Synced m [] v = v
  apply_next-Synced m (x ∷ xs) v = apply_request-Synced _ _ _ v

  step-Synced : (m : StateManager L) (c : Call) → Synced m → Synced (step launcher m c)
  unfolding step apply_next_request register_observer
  step-Synced m (registers d) v = register-Synced m d v
  step-Synced m (submits r) v = submit-Synced m r v
  step-Synced m (requests r) v =
      request_function_group_state_cases launcher (λ out. Synced out.0) m r (λ e f. v)
        (apply_request-Synced _ r m.next_sequence v)
  step-Synced m applies v = apply_next-Synced m m.pending_requests v
  step-Synced m (observes none) v = v
  step-Synced m (observes (some o)) v = v

  run-Synced : (m : StateManager L) (cs : List Call) → Synced m → Synced (run launcher m cs)
  unfolding run
  run-Synced m [] v = v
  run-Synced m (c ∷ cs) v = run-Synced (step launcher m c) cs (step-Synced m c v)

  -- Over every history of calls from a new manager, while exactly one function group is
  -- registered, its state is the function group state of Execution Management.
  pub run_agrees :
      (em : ExecutionManager L) (cs : List Call) (g : FunctionGroupRecord)
      → (run launcher (new em) cs).function_groups ≡ g ∷ []
      → g.state ≡ (run launcher (new em) cs).execution.function_group
  unfolding new
  run_agrees em cs g e =
      let m : StateManager L = run launcher (new em) cs in
      subst (λ gs. Agrees gs m.execution.function_group) e (run-Synced (new em) cs tt)
