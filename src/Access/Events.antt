-- ===== src/Access/Events.antt =====
-- identity_access_manager.cpp: `SecurityEventCollector`.
use open_autosar.Base.{
  ℕ, ◌+◌, ◌-◌, ◌==◌, leb, Bool, true, ◌&&◌, ◌||◌, is_empty, str_eq, List, [], ◌∷◌, ◌++◌, Option,
  none, some, length, drop, u32, if◌then◌else◌, Result, from_value, from_error,
}
use open_autosar.Access.{
  SecurityEvent, SecurityEventPolicy, SecuritySeverity, same_operation, same_severity,
}
use open_autosar.Access.Trust.{make_error}

pub record SecurityEventCollector : Type 0 where
  pub policy : SecurityEventPolicy
  pub events : List SecurityEvent

unfoldable pub same_aggregation_key : SecurityEvent → SecurityEvent → Bool
same_aggregation_key left right =
    str_eq left.source right.source
    && str_eq left.category right.category
    && str_eq left.principal_id right.principal_id
    && str_eq left.resource_id right.resource_id
    && same_operation left.operation right.operation
    && str_eq left.detail right.detail
    && same_severity left.severity right.severity

-- The time between two events, zero if the new one is older.
abbrev pub elapsed_ms : SecurityEvent → SecurityEvent → ℕ
elapsed_ms stored event =
    if leb stored.timestamp_ms event.timestamp_ms
    then event.timestamp_ms - stored.timestamp_ms
    else 0

abbrev pub joins : SecurityEventPolicy → SecurityEvent → SecurityEvent → Bool
joins policy stored event =
    same_aggregation_key stored event && leb (elapsed_ms stored event) policy.aggregation_window_ms

abbrev pub cons_events : SecurityEvent → Option (List SecurityEvent) → Option (List SecurityEvent)
cons_events e none = none
cons_events e (some es) = some (e ∷ es)

-- The loop over the stored events: the first that takes the event in, if there is one.
unfoldable pub aggregate :
    SecurityEventPolicy → List SecurityEvent → SecurityEvent → Option (List SecurityEvent)
aggregate policy [] event = none
aggregate policy (stored ∷ events) event =
    let rest = aggregate policy events event in
    if joins policy stored event
    then some (
        record stored {
          count = u32 (stored.count + event.count);
          timestamp_ms = event.timestamp_ms;
        }
        ∷ events)
    else cons_events stored rest

abbrev pub at_least_one : SecurityEvent → SecurityEvent
at_least_one event = if event.count == 0 then record event { count = 1 } else event

-- `erase` of the first event when there is no room, and `push_back`. A vector without elements has
-- none to erase.
abbrev pub push_event :
    SecurityEventPolicy → List SecurityEvent → SecurityEvent → List SecurityEvent
push_event policy events event =
    (if leb policy.max_events (length events) then drop 1 events else events) ++ (event ∷ [])

abbrev pub stored_events :
    SecurityEventPolicy
    → List SecurityEvent
    → SecurityEvent
    → Option (List SecurityEvent)
    → List SecurityEvent
stored_events policy events event none = push_event policy events event
stored_events policy events event (some joined) = joined

unfoldable pub record_event :
    SecurityEventCollector → SecurityEvent → SecurityEventCollector × Result Bool
record_event c event =
    let counted = at_least_one event in
    if is_empty event.source || is_empty event.category || is_empty event.detail
    then (c, from_error (make_error "security event is invalid"))
    else (
      record c {
        events = stored_events c.policy c.events counted (aggregate c.policy c.events counted);
      },
      from_value true,
    )

-- The sum of the counts, in 32 bits.
unfoldable pub count_by_severity : List SecurityEvent → SecuritySeverity → ℕ → ℕ
count_by_severity [] severity count = count
count_by_severity (event ∷ events) severity count =
    count_by_severity events severity
      (if same_severity event.severity severity then u32 (count + event.count) else count)
