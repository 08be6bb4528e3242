-- ===== src/Execution/Manager.antt =====
-- execution_manager.cpp: the methods of `ExecutionManager`. A method returns the new manager and
-- its result; `FindMutable` followed by writes through the pointer is `with_process`.
use open_autosar.Base.{
  ◌+◌, Bool, true, false, not, ◌&&◌, ◌||◌, String, [], none, some, is_empty, is_positive, ltb,
  if◌then◌else◌, u32, Result, from_value, from_error, ErrorCode, find, put,
}
use open_autosar.Process.{ProcessLauncher, ProcessLaunchSpec, LaunchRecord}
use open_autosar.Execution.{
  ProcessState, declared, starting, running, terminating, stopped, failed, same_process_state,
  FunctionGroupState, off, startup, driving_ready, diagnostic, parking, update, shutdown,
  same_state, ProcessManifest, ProcessRecord, ExecutionManager,
}

abbrev pub make_error : String → ErrorCode
make_error message = record { domain = "execution-management"; message = message }

unfoldable pub is_valid_process_manifest : ProcessManifest → Bool
is_valid_process_manifest m =
    not (is_empty m.name)
    && not (is_empty m.executable)
    && not (is_empty m.user)
    && not (is_empty m.group)
    && not (is_empty m.working_directory)
    && is_positive m.resource_policy.startup_timeout

abbrev pub to_launch_spec : ProcessManifest → ProcessLaunchSpec
to_launch_spec m = record {
  process_name = m.name;
  executable = m.executable;
  arguments = m.arguments;
  environment = m.environment;
  user = m.user;
  group = m.group;
  working_directory = m.working_directory;
  security_label = m.security_label;
  policy = m.launch_policy;
  startup_timeout = m.resource_policy.startup_timeout;
}

-- What `RegisterProcess` stores.
abbrev pub declared_record : ProcessManifest → ProcessRecord
declared_record manifest = record {
  manifest = manifest;
  state = declared;
  restart_count = 0;
  last_launch = none;
}

-- The `switch` of `IsAllowedTransition`.
allowed_next : FunctionGroupState → FunctionGroupState → Bool
allowed_next off next = same_state next startup
allowed_next startup next =
    same_state next driving_ready
    || same_state next diagnostic
    || same_state next FunctionGroupState.degraded
allowed_next driving_ready next =
    same_state next parking || same_state next FunctionGroupState.degraded
allowed_next diagnostic next = same_state next parking
allowed_next parking next =
    same_state next driving_ready || same_state next diagnostic || same_state next update
allowed_next update next = same_state next parking
allowed_next FunctionGroupState.degraded next =
    same_state next driving_ready || same_state next parking
allowed_next shutdown next = false

unfoldable pub is_allowed_transition : FunctionGroupState → FunctionGroupState → Bool
unfolding allowed_next
is_allowed_transition current next =
    if same_state next current
    then true
    else if same_state next shutdown
    then true
    else allowed_next current next

module _ {L : Type 0} where
  unfoldable pub new : L → ExecutionManager L
  new l = record { processes = []; function_group = off; launcher = l }

  unfoldable pub register_process :
      ExecutionManager L → ProcessManifest → ExecutionManager L × Result String
  register_process m manifest =
      if is_valid_process_manifest manifest
      then elim (find manifest.name m.processes) [
        | some _ ↦ (m, from_error (make_error "process is already registered"))
        | none ↦ (
          record m { processes = put manifest.name (declared_record manifest) m.processes },
          from_value manifest.name,
        )
      ]
      else (m, from_error (make_error "process manifest is incomplete"))

  -- `FindMutable`, then an update of the record and of the launcher.
  unfoldable pub with_process :
      ExecutionManager L
      → String
      → (L → ProcessRecord → L × ProcessRecord × Result ProcessState)
      → ExecutionManager L × Result ProcessState
  with_process m name f = elim (find name m.processes) [
    | none ↦ (m, from_error (make_error "process is not registered"))
    | some p ↦
        let (l, p', r) = f m.launcher p in
        (record m { processes = put name p' m.processes; launcher = l }, r)
  ]

  unfoldable pub transition_function_group :
      ExecutionManager L → FunctionGroupState → ExecutionManager L × Result FunctionGroupState
  transition_function_group m next =
      if is_allowed_transition m.function_group next
      then (record m { function_group = next }, from_value next)
      else (m, from_error (make_error "function group transition is not allowed"))

  unfoldable pub state_of : ExecutionManager L → String → Result ProcessState
  state_of m name = elim (find name m.processes) [
    | none ↦ from_error (make_error "process is not registered")
    | some p ↦ from_value p.state
  ]

  unfoldable pub last_launch_of : ExecutionManager L → String → Result LaunchRecord
  last_launch_of m name = elim (find name m.processes) [
    | none ↦ from_error (make_error "process is not registered")
    | some p ↦ elim p.last_launch [
      | none ↦ from_error (make_error "process has no launch record")
      | some r ↦ from_value r
    ]
  ]

module _ {L : Type 0} (launcher : ProcessLauncher L) where
  -- `StartProcess` on a registered process.
  unfoldable pub start_record : L → ProcessRecord → L × ProcessRecord × Result ProcessState
  start_record l p =
      if same_process_state p.state running
      then (l, p, from_value running)
      else if ltb p.manifest.resource_policy.max_restarts p.restart_count
      then (
        l,
        record p { state = failed },
        from_error (make_error "process restart budget exhausted"),
      )
      else let q : ProcessRecord = record p {
        restart_count = u32 (p.restart_count + 1);
        state = starting;
      } in
        let launched = launcher.launch l (to_launch_spec p.manifest) in
        elim launched.1 [
          | from_error e ↦ (launched.0, record q { state = failed }, from_error e)
          | from_value r ↦
              (launched.0, record q { last_launch = some r; state = running }, from_value running)
        ]

  unfoldable pub start_process :
      ExecutionManager L → String → ExecutionManager L × Result ProcessState
  start_process m name = with_process m name start_record

  -- `StopProcess` on a registered process.
  unfoldable pub stop_record : L → ProcessRecord → L × ProcessRecord × Result ProcessState
  stop_record l p =
      if same_process_state p.state declared || same_process_state p.state stopped
      then (l, record p { state = stopped }, from_value stopped)
      else let q : ProcessRecord = record p { state = terminating } in
        elim p.last_launch [
          | none ↦ (l, record q { state = stopped }, from_value stopped)
          | some _ ↦
              let halted = launcher.stop l p.manifest.name in
              elim halted.1 [
                | from_error e ↦ (halted.0, record q { state = failed }, from_error e)
                | from_value r ↦ (
                  halted.0,
                  record q { last_launch = some r; state = stopped },
                  from_value stopped,
                )
              ]
        ]

  unfoldable pub stop_process :
      ExecutionManager L → String → ExecutionManager L × Result ProcessState
  stop_process m name = with_process m name stop_record
