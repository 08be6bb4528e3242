-- ===== src/Execution/Examples.antt =====
-- Tests of the Execution Management model, and its theorems at concrete inputs.
use open_autosar.Base.{
  ℕ, suc, ◌≤◌, ◌≡◌, refl, ◌↔◌, pos, true, false, String, List, [], ◌∷◌, some, arith, str_eq,
  if◌then◌else◌, from_value, from_error, find, put,
}
use open_autosar.Process
use open_autosar.Process.{ProcessLauncher, ProcessLaunchSpec, LaunchRecord, LaunchPolicy}
use open_autosar.Execution.{
  ProcessManifest, ProcessRecord, ExecutionManager, FunctionGroupState, off, startup, driving_ready,
  parking, update,
}
use open_autosar.Execution.Manager.{
  new, declared_record, start_record, stop_record, start_process, stop_process, register_process,
  is_valid_process_manifest, state_of, with_process, last_launch_of, is_allowed_transition,
  transition_function_group,
}
use open_autosar.Execution.Calls.{Call, registers, starts, stops, step, run}
use open_autosar.Execution.Transitions.{requests}
use open_autosar.Execution.Reachability.{can_reach, requests-can_reach}
use open_autosar.Execution.Budget.{recording, launches, launches_bounded}
use open_autosar.Execution.Records.{running_launched}

abbrev launch_record : ℕ → String → LaunchRecord
launch_record pid name = record {
  pid = pid;
  process_name = name;
  state = Process.running;
  executable = "";
  argv = [];
  environment = [];
  scope_name = "";
  systemd_properties = [];
  cgroup_operations = [];
  created = true;
  initialized = true;
  resource_policy_applied = true;
}

-- A launcher that numbers its processes, and fails to launch the executable `missing`.
abbrev pub numbering : ProcessLauncher ℕ
numbering = record {
  launch = λ n spec.
      if str_eq spec.executable "missing"
      then (n, from_error (record { domain = "launcher"; message = "no such executable" }))
      else (suc n, from_value (launch_record n spec.process_name));
  stop = λ n name. (n, from_value (launch_record n name));
  status = λ n name. from_value (launch_record n name);
}

abbrev policy : LaunchPolicy
policy = record {
  cgroup = record {
    slice = "openautosar.slice";
    scope_prefix = "openautosar";
    memory_max_bytes = 0;
    cpu_weight = 100;
    allowed_cpus = [];
    file_descriptor_limit = 1024;
  };
  namespaces = record {
    private_tmp = true;
    private_devices = true;
    private_network = false;
    protect_system = true;
  };
  capabilities = record { permitted = []; no_new_privileges = true };
  seccomp = record { profile = "default"; allowed_syscall_groups = [] };
}

abbrev pub manifest : String → String → ProcessManifest
manifest name executable = record {
  name = name;
  executable = executable;
  arguments = [];
  environment = [];
  user = "openautosar";
  group = "openautosar";
  working_directory = "/";
  security_label = "";
  resource_policy = record { max_restarts = 1; startup_timeout = pos 5000 };
  launch_policy = policy;
}

abbrev camera : ProcessRecord
camera = declared_record (manifest "camera" "camerad")

abbrev pub one_process : ExecutionManager ℕ
one_process = record { processes = ("camera", camera) ∷ []; function_group = off; launcher = 1000 }

one_process-find : find "camera" one_process.processes ≡ some camera
unfolding find
one_process-find = refl

register_camera : (register_process (new 1000) (manifest "camera" "camerad")).0 ≡ one_process
unfolding register_process new is_valid_process_manifest find put
register_camera = refl

requests-can_reach_example :
    ((ss : List FunctionGroupState) × ((requests one_process ss).function_group ≡ update))
    ↔ (can_reach off update ≡ true)
requests-can_reach_example = requests-can_reach one_process update

abbrev drive_cycle : List FunctionGroupState
drive_cycle = startup ∷ update ∷ driving_ready ∷ parking ∷ []

requests-drive_cycle : (requests one_process drive_cycle).function_group ≡ parking
unfolding requests transition_function_group is_allowed_transition
requests-drive_cycle = refl

-- Three starts with a stop after each: the third is refused.
abbrev restarts : List Call
restarts =
    registers (manifest "camera" "camerad")
    ∷ starts "camera"
    ∷ stops "camera"
    ∷ starts "camera"
    ∷ stops "camera"
    ∷ starts "camera"
    ∷ []

launches_bounded_example :
    launches "camera" (run (recording numbering) (new (1000, [])) restarts).launcher.1 ≤ 2
unfolding run step recording start_process stop_process register_process with_process new find put
    is_valid_process_manifest start_record stop_record
launches_bounded_example = launches_bounded numbering 1000 restarts "camera" _ refl (omega arith)

abbrev one_start : List Call
one_start = registers (manifest "camera" "camerad") ∷ starts "camera" ∷ []

running_launched_example :
    (r : LaunchRecord) × (last_launch_of (run numbering (new 1000) one_start) "camera"
      ≡ from_value r)
unfolding run step start_process register_process with_process new find put
    is_valid_process_manifest start_record state_of
running_launched_example = running_launched numbering 1000 one_start "camera" refl
