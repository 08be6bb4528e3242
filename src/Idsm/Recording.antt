-- ===== src/Idsm/Recording.antt =====
-- idsm_manager.cpp: the operations of `IdsmManager`. Each returns the manager after the call.
use open_autosar.Base.{
  ℕ, ◌+◌, ◌-◌, ◌==◌, leb, ltb, Bool, false, not, ◌&&◌, ◌||◌, String, is_empty, str_eq, List, [],
  ◌∷◌, ◌++◌, length, drop, Option, none, some, u32, if◌then◌else◌, ErrorCode, Result, from_value,
  from_error,
}
use open_autosar.Access.{
  SecuritySeverity, severity_code, same_severity, same_operation, SecurityEvent,
}
use open_autosar.Idsm.{
  EventSource, source_code, hides_principal, hides_resource, IdsmAction, IdsmEvent, IdsmPolicy,
  IdsmReceipt, IdsmSnapshot, IdsmManager,
}

abbrev pub make_error : String → ErrorCode
make_error message = record { domain = "idsm"; message = message }

unfoldable pub same_aggregation_key : IdsmEvent → IdsmEvent → Bool
same_aggregation_key left right =
    source_code left.source == source_code right.source
    && str_eq left.category right.category
    && same_severity left.severity right.severity
    && str_eq left.principal_id right.principal_id
    && str_eq left.resource_id right.resource_id
    && same_operation left.operation right.operation
    && str_eq left.detail right.detail

abbrev pub elapsed_ms : ℕ → ℕ → ℕ
elapsed_ms newer older = if leb older newer then newer - older else 0

abbrev pub max_uint32 : ℕ
max_uint32 = 4294967295

unfoldable pub saturating_add : ℕ → ℕ → ℕ
saturating_add left right = if ltb (max_uint32 - left) right then max_uint32 else left + right

unfoldable pub source_from_security_event : String → EventSource
source_from_security_event source =
    if str_eq source "ara-com" || str_eq source "communication"
    then EventSource.communication
    else if str_eq source "diagnostics"
    then EventSource.diagnostics
    else if str_eq source "firewall"
    then EventSource.firewall
    else if str_eq source "ucm" || str_eq source "update"
    then EventSource.update
    else if str_eq source "phm" || str_eq source "health-manager"
    then EventSource.health_manager
    else if str_eq source "kernel" || str_eq source "audit"
    then EventSource.kernel_audit
    else if str_eq source "iam" || str_eq source "authentication"
    then EventSource.authentication
    else EventSource.application

abbrev pub new : IdsmPolicy → IdsmManager
new p = record {
  policy = p;
  records = [];
  forwarding_queue = [];
  dropped_events = 0;
  throttled_events = 0;
  forwarded_events = 0;
}

unfoldable pub should_forward : IdsmPolicy → IdsmEvent → Bool
should_forward policy event =
    policy.backend_forwarding_enabled
    && leb (severity_code policy.forwarding_threshold) (severity_code event.severity)

abbrev pub redacted : Bool → String → String
redacted hides s = if hides && not (is_empty s) then "redacted" else s

unfoldable pub normalize : IdsmPolicy → IdsmEvent → IdsmEvent
normalize policy event = record event {
  principal_id = redacted (hides_principal policy.privacy_mode) event.principal_id;
  resource_id = redacted (hides_resource policy.privacy_mode) event.resource_id;
}

-- The event with a count of at least one, normalized.
abbrev pub prepared : IdsmPolicy → IdsmEvent → IdsmEvent
prepared policy event =
    normalize policy (if event.count == 0 then record event { count = 1 } else event)

-- The stored event that an event joins, after it, and the time between the two.
pub record Joined : Type 0 where
  pub records : List IdsmEvent
  pub stored : IdsmEvent
  pub elapsed : ℕ

abbrev pub join : IdsmEvent → IdsmEvent → IdsmEvent
join stored event = record stored {
  count = saturating_add stored.count event.count;
  timestamp_ms = event.timestamp_ms;
}

abbrev pub joins : IdsmPolicy → IdsmEvent → IdsmEvent → Bool
joins policy stored event =
    same_aggregation_key stored event
    && leb (elapsed_ms event.timestamp_ms stored.timestamp_ms) policy.aggregation_window_ms

abbrev pub cons_joined : IdsmEvent → Option Joined → Option Joined
cons_joined e none = none
cons_joined e (some j) = some (record j { records = e ∷ j.records })

-- The loop over the stored events, up to the first that takes the event in.
unfoldable pub aggregate : IdsmPolicy → List IdsmEvent → IdsmEvent → Option Joined
aggregate policy [] event = none
aggregate policy (stored ∷ events) event =
    let rest = aggregate policy events event in
    if joins policy stored event
    then some (record {
      records = join stored event ∷ events;
      stored = join stored event;
      elapsed = elapsed_ms event.timestamp_ms stored.timestamp_ms;
    })
    else cons_joined stored rest

-- `forwarding_queue_.push_back` and the count, if the event is forwarded.
abbrev pub forward : IdsmEvent → IdsmManager → IdsmManager
forward event m =
    if should_forward m.policy event
    then record m {
      forwarding_queue = m.forwarding_queue ++ (event ∷ []);
      forwarded_events = saturating_add m.forwarded_events event.count;
    }
    else m

abbrev pub receipt : IdsmAction → String → ℕ → Bool → Result IdsmReceipt
receipt action reason count forwarded =
    from_value (record { action = action; reason = reason; count = count; forwarded = forwarded })

unfoldable pub record_joined : IdsmManager → Joined → IdsmManager × Result IdsmReceipt
record_joined m j =
    let m' = record m { records = j.records } in
    if ltb m.policy.rate_limit_count j.stored.count && leb j.elapsed m.policy.rate_limit_window_ms
    then (
      record m' { throttled_events = u32 (m.throttled_events + 1) },
      receipt IdsmAction.throttled "IDSM event was rate limited" j.stored.count false,
    )
    else (
      forward j.stored m',
      receipt IdsmAction.aggregated "IDSM event aggregated" j.stored.count
          (should_forward m.policy j.stored),
    )

abbrev pub make_room : IdsmManager → IdsmManager
make_room m =
    if leb m.policy.max_records (length m.records)
    then record m { records = drop 1 m.records; dropped_events = u32 (m.dropped_events + 1) }
    else m

abbrev pub push_record : IdsmEvent → IdsmManager → IdsmManager
push_record event m = record m { records = m.records ++ (event ∷ []) }

unfoldable pub record_new : IdsmManager → IdsmEvent → IdsmManager × Result IdsmReceipt
record_new m event =
    let full = leb m.policy.max_records (length m.records) in
    (
      push_record event (forward event (make_room m)),
      receipt (if full then IdsmAction.dropped_oldest else IdsmAction.accepted)
          (if full then "oldest IDSM event dropped" else "IDSM event accepted") event.count
          (should_forward m.policy event),
    )

unfoldable pub record_prepared : IdsmManager → IdsmEvent → IdsmManager × Result IdsmReceipt
record_prepared m event = elim (aggregate m.policy m.records event) [
  | none ↦ record_new m event
  | some j ↦ record_joined m j
]

unfoldable pub record_event : IdsmManager → IdsmEvent → IdsmManager × Result IdsmReceipt
record_event m event =
    if m.policy.max_records == 0
    then (m, from_error (make_error "IDSM record budget is zero"))
    else if is_empty event.category || is_empty event.detail
    then (m, from_error (make_error "IDSM event is incomplete"))
    else record_prepared m (prepared m.policy event)

unfoldable pub record_security_event :
    IdsmManager → SecurityEvent → IdsmManager × Result IdsmReceipt
record_security_event m event = record_event m (record {
  source = source_from_security_event event.source;
  category = event.category;
  severity = event.severity;
  principal_id = event.principal_id;
  resource_id = event.resource_id;
  operation = event.operation;
  detail = event.detail;
  count = event.count;
  timestamp_ms = event.timestamp_ms;
})

unfoldable pub count_critical : List IdsmEvent → ℕ → ℕ
count_critical [] count = count
count_critical (e ∷ es) count = count_critical es (
    if same_severity e.severity SecuritySeverity.critical
    then saturating_add count e.count
    else count)

unfoldable pub snapshot : IdsmManager → IdsmSnapshot
snapshot m = record {
  records = m.records;
  dropped_events = m.dropped_events;
  throttled_events = m.throttled_events;
  forwarded_events = m.forwarded_events;
  critical_events = count_critical m.records 0;
}

unfoldable pub drain_forwarding_batch : IdsmManager → IdsmManager × List IdsmEvent
drain_forwarding_batch m = (record m { forwarding_queue = [] }, m.forwarding_queue)
