-- ===== src/UpdateManagement/Lifecycle.antt =====
-- The life cycle of an update transaction (update_manager.cpp), as a diagram.
use open_autosar.Base.{
  ◌≡◌, refl, ◌≢◌, Bool, true, false, not, String, is_empty, List, [], ◌∷◌, Option, none, arith,
  Result, has_value,
}
use open_autosar.Health.{healthy}
use open_autosar.UpdateManagement.{
  TransactionState, idle, transferred, verified, staged, pending_health_confirmation, committed,
  rolled_back, rejected, failed, MachineState, SoftwareClusterPackage, UpdateBackend, UpdateManager,
  UpdatePolicy, HealthConfirmation,
}
use open_autosar.UpdateManagement.Policy.{health_confirmed}
use open_autosar.UpdateManagement.Manager.{
  new, transfer_package, verify_package, stage_package, activate, confirm_health,
  abort_and_rollback, after_validation, after_install, after_activation, after_commit,
  after_rollback,
}
use open_autosar.UpdateManagement.Calls.{
  Call, transfers, verifies, stages, activates, confirms, aborts, step, run,
}

-- The states from which a new package may be transferred.
pub data Closed : TransactionState → Type 0 where
  idle_closed : Closed idle
  committed_closed : Closed committed
  rolled_back_closed : Closed rolled_back
  rejected_closed : Closed rejected

-- The calls that have their place in a state.
abbrev pub in_place : Call → TransactionState → Bool
in_place (transfers p) idle = true
in_place (transfers p) committed = true
in_place (transfers p) rolled_back = true
in_place (transfers p) rejected = true
in_place verifies transferred = true
in_place stages verified = true
in_place (activates s) staged = true
in_place (confirms h) pending_health_confirmation = true
in_place (aborts reason) s = not (is_empty reason)
in_place _ _ = false

-- The arrows of the diagram: the call, whether it succeeds, and the states before and after it.
pub data Arrow : Call → Bool → TransactionState → TransactionState → Type 0 where
  refuse : {c : Call} {s : TransactionState} → in_place c s ≡ false → Arrow c false s s
  transfer :
      {p : SoftwareClusterPackage} {s : TransactionState}
      → Closed s
      → Arrow (transfers p) true s transferred
  incomplete :
      {p : SoftwareClusterPackage} {s : TransactionState}
      → Closed s
      → Arrow (transfers p) false s rejected
  verify : Arrow verifies true transferred verified
  distrust : Arrow verifies false transferred rejected
  stage : Arrow stages true verified staged
  stage_fault : Arrow stages false verified failed
  activation : {s : MachineState} → Arrow (activates s) true staged pending_health_confirmation
  precondition : {s : MachineState} → Arrow (activates s) false staged rejected
  activation_fault : {s : MachineState} → Arrow (activates s) false staged failed
  confirm :
      {h : HealthConfirmation}
      → health_confirmed h ≡ true
      → Arrow (confirms h) true pending_health_confirmation committed
  confirm_fault :
      {h : HealthConfirmation} → Arrow (confirms h) false pending_health_confirmation failed
  undo :
      {h : HealthConfirmation}
      → health_confirmed h ≡ false
      → Arrow (confirms h) true pending_health_confirmation rolled_back
  abort :
      {reason : String} {s : TransactionState}
      → is_empty reason ≡ false
      → Arrow (aborts reason) true s rolled_back
  abort_fault :
      {reason : String} {s : TransactionState}
      → is_empty reason ≡ false
      → Arrow (aborts reason) false s failed

-- A path through the diagram, one arrow for each call.
pub data Walk : TransactionState → List (Call × Bool) → TransactionState → Type 0 where
  done : {s : TransactionState} → Walk s [] s
  move :
      {s t u : TransactionState} {c : Call} {ok : Bool} {cs : List (Call × Bool)}
      → Arrow c ok s t
      → Walk t cs u
      → Walk s ((c, ok) ∷ cs) u

ruleset moves = (
  refuse, transfer, incomplete, verify, distrust, stage, stage_fault, activation, precondition,
  activation_fault, confirm, confirm_fault, undo, abort, abort_fault, idle_closed, committed_closed,
  rolled_back_closed, rejected_closed,
)

-- A package is pending in the states that need one.
abbrev Pending : TransactionState → Option SoftwareClusterPackage → Type 0
Pending transferred none = ⊥
Pending verified none = ⊥
Pending _ _ = Unit {0}

abbrev Carried : {B : Type 0} → UpdateManager B → Type 0
Carried m = Pending m.state m.pending_package

module _ {B : Type 0} (api : UpdateBackend B) where
  -- What a call returns.
  unfoldable pub answer : UpdateManager B → Call → Result TransactionState
  answer m (transfers p) = (transfer_package m p).1
  answer m verifies = (verify_package api m).1
  answer m stages = (stage_package api m).1
  answer m (activates s) = (activate api m s).1
  answer m (confirms c) = (confirm_health api m c).1
  answer m (aborts reason) = (abort_and_rollback api m reason).1

  -- The calls of a history, each with whether it succeeds.
  unfoldable pub answers : UpdateManager B → List Call → List (Call × Bool)
  answers m [] = []
  answers m (c ∷ cs) = (c, has_value (answer m c)) ∷ answers (step api m c) cs

  step-Arrow :
      (m : UpdateManager B) (c : Call)
      → Carried m
      → Arrow c (has_value (answer m c)) m.state (step api m c).state
  unfolding step answer transfer_package verify_package stage_package activate confirm_health
      abort_and_rollback after_validation after_install after_activation after_commit after_rollback
  step-Arrow m (transfers p) h = grind (arith, moves)
  step-Arrow m verifies h = grind (arith, moves, h)
  step-Arrow m stages h = grind (arith, moves, h)
  step-Arrow m c h = grind (arith, moves)

  step-Carried : (m : UpdateManager B) (c : Call) → Carried m → Carried (step api m c)
  unfolding step transfer_package verify_package stage_package activate confirm_health
      abort_and_rollback after_validation after_install after_activation after_commit after_rollback
  step-Carried m c h = ground arith

  run_from :
      (m : UpdateManager B) (cs : List Call)
      → Carried m
      → Walk m.state (answers m cs) (run api m cs).state
  unfolding run answers
  run_from m [] h = done
  run_from m (c ∷ cs) h = move (step-Arrow m c h) (run_from (step api m c) cs (step-Carried m c h))

  -- From `Idle`, over every history of calls and with any backend, each call moves the state of the
  -- transaction along an arrow of the diagram that is labelled by this call and by whether it
  -- succeeds; the only arrow for a call that has no place in a state is that of its failure, and it
  -- stays in the state.
  pub run-Walk :
      (b : B) (policy : UpdatePolicy) (cs : List Call)
      → Walk idle (answers (new b policy) cs) (run api (new b policy) cs).state
  unfolding new
  run-Walk b policy cs = run_from (new b policy) cs tt

  -- A call that brings a transaction to `Committed` is a health confirmation in which all four
  -- checks hold, made in `PendingHealthConfirmation`.
  pub step_commits :
      (m : UpdateManager B) (c : Call)
      → m.state ≢ committed
      → (step api m c).state ≡ committed
      → (m.state ≡ pending_health_confirmation)
        × (h : HealthConfirmation) × (c ≡ confirms h)
        × (h.execution_started ≡ true)
        × (h.platform_health ≡ healthy)
        × (h.diagnostics_available ≡ true)
        × (h.dashboard_available ≡ true)
  unfolding step transfer_package verify_package stage_package activate confirm_health
      abort_and_rollback after_validation after_install after_activation after_commit after_rollback
      health_confirmed
  step_commits m (confirms h) n e =
      (ground arith, h, refl, ground arith, ground arith, ground arith, ground arith)
  step_commits m (transfers p) n e = absurd (ground arith)
  step_commits m verifies n e = absurd (ground arith)
  step_commits m stages n e = absurd (ground arith)
  step_commits m (activates s) n e = absurd (ground arith)
  step_commits m (aborts reason) n e = absurd (ground arith)
