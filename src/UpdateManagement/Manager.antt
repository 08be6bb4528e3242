-- ===== src/UpdateManagement/Manager.antt =====
-- update_manager.cpp: the methods of `UpdateManager`. A method returns the new manager and its
-- result; what follows a call of the backend is a function of the backend's result.
use open_autosar.Base.{
  Bool, not, ◌||◌, String, [], ◌∷◌, ◌++◌, Option, none, some, is_empty, put, if◌then◌else◌, Result,
  from_value, from_error, ErrorCode,
}
use open_autosar.UpdateManagement.{
  MachineState, same_machine_state, TransactionState, idle, transferred, verified, staged,
  pending_health_confirmation, committed, rolled_back, rejected, failed, same_transaction_state,
  BackendOperation, SoftwareClusterPackage, UpdatePolicy, HealthConfirmation, UpdateBackend,
  UpdateManager,
}
use open_autosar.UpdateManagement.Backend.{make_error}
use open_autosar.UpdateManagement.Policy.{validate_package, health_confirmed}

abbrev pub may_transfer : TransactionState → Bool
may_transfer s =
    same_transaction_state s idle
    || same_transaction_state s committed
    || same_transaction_state s rolled_back
    || same_transaction_state s rejected

-- `policy_.installed_versions[name] = version` for the pending package.
unfoldable pub note_version : UpdatePolicy → Option SoftwareClusterPackage → UpdatePolicy
note_version policy none = policy
note_version policy (some p) = record policy {
  installed_versions = put p.cluster_name p.version policy.installed_versions;
}

module _ {B : Type 0} where
  unfoldable pub audit :
      UpdateManager B → TransactionState → String → Option BackendOperation → UpdateManager B
  audit m state message operation = record m {
    audit_trail =
        m.audit_trail
        ++ (record { state = state; message = message; backend_operation = operation } ∷ []);
  }

  -- `state_ = s; Audit(state_, message, operation)`.
  unfoldable pub enter :
      UpdateManager B → TransactionState → String → Option BackendOperation → UpdateManager B
  unfolding audit
  enter m s message operation = audit (record m { state = s }) s message operation

  unfoldable pub new : B → UpdatePolicy → UpdateManager B
  unfolding audit
  new backend policy =
      audit
        (record {
          backend = backend;
          policy = policy;
          state = idle;
          pending_package = none;
          audit_trail = [];
        })
        idle "UCM initialized" none

  unfoldable pub transfer_package :
      UpdateManager B → SoftwareClusterPackage → UpdateManager B × Result TransactionState
  unfolding enter
  transfer_package m p =
      if not (may_transfer m.state)
      then (m, from_error (make_error "cannot transfer package while transaction is active"))
      else if is_empty p.cluster_name || is_empty p.version
      then (
        enter m rejected "package metadata is incomplete" none,
        from_error (make_error "package metadata is incomplete"),
      )
      else (
        enter (record m { pending_package = some p }) transferred "package transferred" none,
        from_value transferred,
      )

  unfoldable pub after_validation :
      UpdateManager B → Result Bool → UpdateManager B × Result TransactionState
  unfolding enter
  after_validation m (from_error e) = (enter m rejected e.message none, from_error e)
  after_validation m (from_value _) =
      (enter m verified "package verified" none, from_value verified)

  -- A call of the backend that fails ends the transaction in `Failed`.
  unfoldable pub backend_failed :
      UpdateManager B → ErrorCode → BackendOperation → UpdateManager B × Result TransactionState
  unfolding enter
  backend_failed m e operation = (enter m failed e.message (some operation), from_error e)

  -- A call of the backend that succeeds moves the transaction on.
  unfoldable pub backend_done :
      UpdateManager B
      → TransactionState
      → String
      → BackendOperation
      → UpdateManager B × Result TransactionState
  unfolding enter
  backend_done m s message operation = (enter m s message (some operation), from_value s)

  unfoldable pub after_install :
      UpdateManager B → Result Bool → UpdateManager B × Result TransactionState
  unfolding backend_failed backend_done
  after_install m (from_error e) = backend_failed m e BackendOperation.install_inactive
  after_install m (from_value _) =
      backend_done m staged "package staged in inactive slot" BackendOperation.install_inactive

  unfoldable pub after_activation :
      UpdateManager B → Result Bool → UpdateManager B × Result TransactionState
  unfolding backend_failed backend_done
  after_activation m (from_error e) = backend_failed m e BackendOperation.activate_pending
  after_activation m (from_value _) =
      backend_done m pending_health_confirmation "pending slot activated"
        BackendOperation.activate_pending

  unfoldable pub after_commit :
      UpdateManager B → Result Bool → UpdateManager B × Result TransactionState
  unfolding backend_failed backend_done
  after_commit m (from_error e) = backend_failed m e BackendOperation.commit
  after_commit m (from_value _) =
      backend_done (record m { policy = note_version m.policy m.pending_package }) committed
        "health confirmed and pending slot committed" BackendOperation.commit

  unfoldable pub after_rollback :
      UpdateManager B → String → Result Bool → UpdateManager B × Result TransactionState
  unfolding backend_failed backend_done
  after_rollback m message (from_error e) = backend_failed m e BackendOperation.rollback
  after_rollback m message (from_value _) =
      backend_done m rolled_back message BackendOperation.rollback

module _ {B : Type 0} (api : UpdateBackend B) where
  unfoldable pub verify_pending :
      UpdateManager B → Option SoftwareClusterPackage → UpdateManager B × Result TransactionState
  verify_pending m none = (m, from_error (make_error "no transferred package to verify"))
  verify_pending m (some p) =
      after_validation m (validate_package m.policy (api.status m.backend) p)

  unfoldable pub verify_package : UpdateManager B → UpdateManager B × Result TransactionState
  unfolding verify_pending
  verify_package m =
      if same_transaction_state m.state transferred
      then verify_pending m m.pending_package
      else (m, from_error (make_error "no transferred package to verify"))

  unfoldable pub stage_pending :
      UpdateManager B → Option SoftwareClusterPackage → UpdateManager B × Result TransactionState
  stage_pending m none = (m, from_error (make_error "package is not verified"))
  stage_pending m (some p) =
      let installed = api.install_inactive m.backend p in
      after_install (record m { backend = installed.0 }) installed.1

  unfoldable pub stage_package : UpdateManager B → UpdateManager B × Result TransactionState
  unfolding stage_pending
  stage_package m =
      if same_transaction_state m.state verified
      then stage_pending m m.pending_package
      else (m, from_error (make_error "package is not verified"))

  unfoldable pub activate :
      UpdateManager B → MachineState → UpdateManager B × Result TransactionState
  unfolding enter
  activate m machine_state =
      let activated = api.activate_pending m.backend m.policy.max_boot_attempts in
      if not (same_transaction_state m.state staged)
      then (m, from_error (make_error "package is not staged"))
      else if not (same_machine_state machine_state m.policy.activation_state)
      then (
        enter m rejected "activation precondition failed" none,
        from_error (make_error "activation precondition failed"),
      )
      else after_activation (record m { backend = activated.0 }) activated.1

  unfoldable pub roll_back_with :
      UpdateManager B → String → UpdateManager B × Result TransactionState
  roll_back_with m message =
      let rolled = api.rollback m.backend in
      after_rollback (record m { backend = rolled.0 }) message rolled.1

  unfoldable pub confirm_health :
      UpdateManager B → HealthConfirmation → UpdateManager B × Result TransactionState
  unfolding roll_back_with
  confirm_health m c =
      let done = api.commit m.backend in
      if not (same_transaction_state m.state pending_health_confirmation)
      then (m, from_error (make_error "transaction is not waiting for health confirmation"))
      else if health_confirmed c
      then after_commit (record m { backend = done.0 }) done.1
      else roll_back_with m "health confirmation failed and rollback completed"

  unfoldable pub abort_and_rollback :
      UpdateManager B → String → UpdateManager B × Result TransactionState
  unfolding roll_back_with
  abort_and_rollback m reason =
      if is_empty reason
      then (m, from_error (make_error "rollback reason is empty"))
      else roll_back_with m reason
