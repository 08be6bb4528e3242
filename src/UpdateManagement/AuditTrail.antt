-- ===== src/UpdateManagement/AuditTrail.antt =====
-- The audit trail of `UpdateManager` (update_manager.cpp).
use open_autosar.Base.{◌≡◌, refl, List, [], ◌∷◌, ◌++◌, Option, none, some, arith}
use open_autosar.UpdateManagement.{
  TransactionState, AuditEvent, UpdateBackend, UpdateManager, UpdatePolicy,
}
use open_autosar.UpdateManagement.Manager.{
  new, transfer_package, verify_package, stage_package, activate, confirm_health,
  abort_and_rollback, after_validation, after_install, after_activation, after_commit,
  after_rollback,
}
use open_autosar.UpdateManagement.Calls.{
  Call, transfers, verifies, stages, activates, confirms, aborts, step, run,
}

-- The state in the last event of a trail.
abbrev pub last_state : List AuditEvent → Option TransactionState
last_state [] = none
last_state (e ∷ []) = some e.state
last_state (e ∷ f ∷ es) = last_state (f ∷ es)

last_state-append :
    (es : List AuditEvent) (e : AuditEvent) → last_state (es ++ (e ∷ [])) ≡ some e.state
last_state-append [] e = refl
last_state-append (x ∷ []) e = refl
last_state-append (x ∷ y ∷ es) e = last_state-append (y ∷ es) e

module _ {B : Type 0} (api : UpdateBackend B) where
  abbrev Audited : UpdateManager B → Type 0
  Audited m = last_state m.audit_trail ≡ some m.state

  step-Audited : (m : UpdateManager B) (c : Call) → Audited m → Audited (step api m c)
  unfolding step transfer_package verify_package stage_package activate confirm_health
      abort_and_rollback after_validation after_install after_activation after_commit after_rollback
  step-Audited m (transfers p) h = grind (arith, last_state-append)
  step-Audited m verifies h = grind (arith, last_state-append)
  step-Audited m stages h = grind (arith, last_state-append)
  step-Audited m (activates s) h = grind (arith, last_state-append)
  step-Audited m (confirms c) h = grind (arith, last_state-append)
  step-Audited m (aborts reason) h = grind (arith, last_state-append)

  run-Audited : (m : UpdateManager B) (cs : List Call) → Audited m → Audited (run api m cs)
  unfolding run
  run-Audited m [] h = h
  run-Audited m (c ∷ cs) h = run-Audited (step api m c) cs (step-Audited m c h)

  -- Over every history of calls from a new manager, with any backend, the last event of the audit
  -- trail has the current state of the transaction.
  pub run_audited :
      (b : B) (policy : UpdatePolicy) (cs : List Call)
      → let m = run api (new b policy) cs in last_state m.audit_trail ≡ some m.state
  unfolding new
  run_audited b policy cs = run-Audited (new b policy) cs refl
