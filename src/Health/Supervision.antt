-- ===== src/Health/Supervision.antt =====
-- platform_health_manager.cpp: what the methods of `PlatformHealthManager` do with the state of the
-- entity that they are called for.
use Prim.Native.String.{◌++◌ as str_append}
use open_autosar.Base.{
  ℕ, ◌+◌, ◌-◌, ◌/◌, ◌%◌, ◌==◌, ltb, leb, Bool, true, false, not, ◌||◌, ◌&&◌, String, is_empty,
  str_eq, Option, none, some, length, get_or, is_nil, any_of, u32, u64, u64_mod, is_positive,
  to_u64, if◌then◌else◌, Result, from_value, from_error, ErrorCode,
}
use open_autosar.Health.{
  HealthState, healthy, degraded, failed, SupervisionStatus, RecoveryAction, SupervisionPolicy,
  SupervisionReport, EntityState, same_status,
}

abbrev pub make_error : String → ErrorCode
make_error message = record { domain = "platform-health-management"; message = message }

abbrev pub alive_reference : SupervisionPolicy → Option ℕ → ℕ
alive_reference policy none = policy.activation_time_ms
alive_reference policy (some t) = t

-- The arithmetic is that of 64 bits, and the result is cut to 32.
unfoldable pub missed_alive_windows : SupervisionPolicy → Option ℕ → ℕ → ℕ
missed_alive_windows policy last timestamp_ms =
    let timeout = to_u64 policy.alive_timeout in
    let limit = u64 (alive_reference policy last + timeout) in
    if timeout == 0
    then 0
    else if leb timestamp_ms limit
    then 0
    else u32 (u64 ((timestamp_ms - limit) / timeout + 1))

unfoldable pub health_for_missed_alive : SupervisionPolicy → ℕ → HealthState
health_for_missed_alive policy missed =
    if leb policy.failed_after_missed_alive missed
    then failed
    else if leb policy.degraded_after_missed_alive missed
    then degraded
    else healthy

unfoldable pub action_for_health : SupervisionPolicy → HealthState → RecoveryAction
action_for_health policy healthy = RecoveryAction.ignore
action_for_health policy degraded = policy.degraded_action
action_for_health policy failed = policy.failed_action

abbrev pub make_report :
    SupervisionPolicy
    → HealthState
    → SupervisionStatus
    → RecoveryAction
    → ℕ
    → String
    → SupervisionReport
make_report policy health status action timestamp_ms detail = record {
  entity = policy.entity;
  health = health;
  status = status;
  action = action;
  missed_alive_count = 0;
  restart_count = 0;
  timestamp_ms = timestamp_ms;
  last_checkpoint = none;
  detail = detail;
}

unfoldable pub validate_policy : SupervisionPolicy → Result Bool
validate_policy p =
    if is_empty p.entity
    then from_error (make_error "supervised entity is empty")
    else if not (is_positive p.alive_timeout) || not (is_positive p.deadline_timeout)
    then from_error (make_error "supervision timeout is invalid")
    else if p.degraded_after_missed_alive == 0
        || ltb p.failed_after_missed_alive p.degraded_after_missed_alive
    then from_error (make_error "alive supervision thresholds are invalid")
    else if any_of is_empty p.checkpoint_sequence
    then from_error (make_error "checkpoint sequence contains an empty name")
    else from_value true

-- What `RegisterEntity` stores.
abbrev pub registered : SupervisionPolicy → EntityState
registered policy = record {
  policy = policy;
  report =
      make_report policy healthy SupervisionStatus.ok RecoveryAction.ignore
        policy.activation_time_ms "registered";
  next_checkpoint_index = 0;
  last_checkpoint_time_ms = none;
}

-- `record.report = report; return record.report;`.
abbrev pub reported : EntityState → SupervisionReport → EntityState × Result SupervisionReport
reported s report = (record s { report = report }, from_value report)

-- `MakeReport` followed by the write of `last_checkpoint`.
abbrev pub checkpoint_report : SupervisionReport → String → SupervisionReport
checkpoint_report report checkpoint = record report { last_checkpoint = some checkpoint }

-- `timestamp_ms - record.last_checkpoint_time_ms.value()` is past the deadline, in 64 bits.
abbrev pub deadline_exceeded : EntityState → ℕ → Bool
deadline_exceeded s timestamp_ms = elim s.last_checkpoint_time_ms [
  | none ↦ false
  | some last ↦
      same_status s.report.status SupervisionStatus.ok
      && ltb (to_u64 s.policy.deadline_timeout) (u64 (timestamp_ms + u64_mod - last))
]

-- `ReportCheckpoint` behind the supervision of the sequence.
unfoldable pub accept_checkpoint : EntityState → String → ℕ → EntityState × Result SupervisionReport
accept_checkpoint s checkpoint timestamp_ms =
    let t = record s { last_checkpoint_time_ms = some timestamp_ms } in
    if deadline_exceeded s timestamp_ms
    then reported t (
        checkpoint_report
          (make_report s.policy degraded SupervisionStatus.deadline_missed
            s.policy.deadline_miss_action timestamp_ms "checkpoint deadline exceeded")
          checkpoint)
    else reported t (
        checkpoint_report
          (make_report s.policy healthy SupervisionStatus.ok RecoveryAction.ignore timestamp_ms
            "checkpoint accepted")
          checkpoint)

abbrev pub expected_checkpoint : EntityState → String
expected_checkpoint s = get_or s.policy.checkpoint_sequence s.next_checkpoint_index ""

abbrev pub next_index : EntityState → ℕ
next_index s = (s.next_checkpoint_index + 1) % length s.policy.checkpoint_sequence

-- `ReportCheckpoint` on the entity's state.
unfoldable pub record_checkpoint : EntityState → String → ℕ → EntityState × Result SupervisionReport
record_checkpoint s checkpoint timestamp_ms =
    if is_empty checkpoint
    then (s, from_error (make_error "checkpoint is empty"))
    else if is_nil s.policy.checkpoint_sequence
    then accept_checkpoint s checkpoint timestamp_ms
    else if str_eq checkpoint (expected_checkpoint s)
    then accept_checkpoint (record s { next_checkpoint_index = next_index s }) checkpoint
        timestamp_ms
    else reported s (
        make_report s.policy failed SupervisionStatus.logical_sequence_error
          s.policy.sequence_error_action timestamp_ms
          (str_append "expected checkpoint " (expected_checkpoint s)))

-- The end of `EvaluateAlive`, for the windows that were missed.
abbrev pub alive_report : EntityState → ℕ → ℕ → SupervisionReport
alive_report s missed timestamp_ms =
    let health = health_for_missed_alive s.policy missed in
    let satisfied = missed == 0 in
    record (make_report s.policy health
      (if satisfied then SupervisionStatus.ok else SupervisionStatus.missing_checkpoint)
      (action_for_health s.policy health) timestamp_ms
      (if satisfied then "alive supervision satisfied" else "alive checkpoint missing")) {
        missed_alive_count = missed;
        last_checkpoint = elim s.last_checkpoint_time_ms [
          | none ↦ none
          | some _ ↦ s.report.last_checkpoint
        ];
      }

unfoldable pub record_alive : EntityState → ℕ → EntityState × Result SupervisionReport
record_alive s timestamp_ms = reported s (
    alive_report s (missed_alive_windows s.policy s.last_checkpoint_time_ms timestamp_ms)
      timestamp_ms)

unfoldable pub record_termination : EntityState → ℕ → EntityState × Result SupervisionReport
record_termination s timestamp_ms = reported s (
    make_report s.policy failed SupervisionStatus.process_terminated s.policy.termination_action
      timestamp_ms "process terminated")

unfoldable pub record_exhaustion : EntityState → String → ℕ → EntityState × Result SupervisionReport
record_exhaustion s detail timestamp_ms =
    if is_empty detail
    then (s, from_error (make_error "resource detail is empty"))
    else reported s (
        make_report s.policy degraded SupervisionStatus.resource_exhausted
          s.policy.resource_exhaustion_action timestamp_ms detail)

unfoldable pub record_availability : EntityState → Bool → ℕ → EntityState × Result SupervisionReport
record_availability s available timestamp_ms =
    if available
    then reported s (
        make_report s.policy healthy SupervisionStatus.ok RecoveryAction.ignore timestamp_ms
          "service available")
    else reported s (
        make_report s.policy degraded SupervisionStatus.service_unavailable
          s.policy.service_unavailable_action timestamp_ms "service unavailable")

unfoldable pub record_restart : EntityState → ℕ → EntityState × Result SupervisionReport
record_restart s timestamp_ms =
    let count = u32 (s.report.restart_count + 1) in
    if ltb s.policy.max_restart_count count
    then reported s
        (record (make_report s.policy failed SupervisionStatus.restart_limit_exceeded
          s.policy.failed_action timestamp_ms "restart limit exceeded") {
            restart_count = u32 (s.policy.max_restart_count + 1);
          })
    else reported s (record s.report {
      restart_count = count;
      timestamp_ms = timestamp_ms;
      detail = "restart recorded";
    })
