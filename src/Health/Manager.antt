-- ===== src/Health/Manager.antt =====
-- platform_health_manager.cpp: the methods of `PlatformHealthManager`. `FindMutable` followed by
-- writes through the pointer is `with_entity`.
use open_autosar.Base.{
  ℕ, Bool, String, List, [], ◌∷◌, map, none, some, text_less, if◌then◌else◌, Result, from_value,
  from_error, find, put,
}
use open_autosar.Health.{SupervisionPolicy, SupervisionReport, EntityState, PlatformHealthManager}
use open_autosar.Health.Supervision.{
  make_error, validate_policy, registered, record_checkpoint, record_alive, record_termination,
  record_exhaustion, record_availability, record_restart,
}

unfoldable pub register_entity :
    PlatformHealthManager → SupervisionPolicy → PlatformHealthManager × Result SupervisionReport
register_entity m policy = elim (validate_policy policy) [
  | from_error e ↦ (m, from_error e)
  | from_value _ ↦ elim (find policy.entity m.entities) [
    | some _ ↦ (m, from_error (make_error "entity is already registered"))
    | none ↦ (
      record m { entities = put policy.entity (registered policy) m.entities },
      from_value (registered policy).report,
    )
  ]
]

-- `FindMutable`, and what a method does with the entity's state.
unfoldable pub with_entity :
    PlatformHealthManager
    → String
    → (EntityState → EntityState × Result SupervisionReport)
    → PlatformHealthManager × Result SupervisionReport
with_entity m entity f = elim (find entity m.entities) [
  | none ↦ (m, from_error (make_error "entity is not registered"))
  | some s ↦ let r = f s in (record m { entities = put entity r.0 m.entities }, r.1)
]

unfoldable pub report_checkpoint :
    PlatformHealthManager → String → String → ℕ → PlatformHealthManager × Result SupervisionReport
report_checkpoint m entity checkpoint timestamp_ms =
    with_entity m entity (λ s. record_checkpoint s checkpoint timestamp_ms)

unfoldable pub evaluate_alive :
    PlatformHealthManager → String → ℕ → PlatformHealthManager × Result SupervisionReport
evaluate_alive m entity timestamp_ms = with_entity m entity (λ s. record_alive s timestamp_ms)

unfoldable pub report_process_termination :
    PlatformHealthManager → String → ℕ → PlatformHealthManager × Result SupervisionReport
report_process_termination m entity timestamp_ms =
    with_entity m entity (λ s. record_termination s timestamp_ms)

unfoldable pub report_resource_exhaustion :
    PlatformHealthManager → String → String → ℕ → PlatformHealthManager × Result SupervisionReport
report_resource_exhaustion m entity detail timestamp_ms =
    with_entity m entity (λ s. record_exhaustion s detail timestamp_ms)

unfoldable pub report_service_availability :
    PlatformHealthManager → String → Bool → ℕ → PlatformHealthManager × Result SupervisionReport
report_service_availability m entity available timestamp_ms =
    with_entity m entity (λ s. record_availability s available timestamp_ms)

unfoldable pub report_restart :
    PlatformHealthManager → String → ℕ → PlatformHealthManager × Result SupervisionReport
report_restart m entity timestamp_ms = with_entity m entity (λ s. record_restart s timestamp_ms)

unfoldable pub report_of : PlatformHealthManager → String → Result SupervisionReport
report_of m entity = elim (find entity m.entities) [
  | none ↦ from_error (make_error "entity is not registered")
  | some s ↦ from_value s.report
]

-- The loop of `EvaluateAll`: `push_back` of each report that is a value.
unfoldable pub evaluate_each :
    PlatformHealthManager → List String → ℕ → PlatformHealthManager × List SupervisionReport
evaluate_each m [] timestamp_ms = (m, [])
evaluate_each m (entity ∷ entities) timestamp_ms =
    let r = evaluate_alive m entity timestamp_ms in
    let rest = evaluate_each r.0 entities timestamp_ms in
    elim r.1 [ from_error _ ↦ rest | from_value report ↦ (rest.0, report ∷ rest.1) ]

-- `std::sort` by the entity, by insertion.
unfoldable pub insert_report : SupervisionReport → List SupervisionReport → List SupervisionReport
insert_report r [] = r ∷ []
insert_report r (s ∷ ss) =
    let rest = insert_report r ss in if text_less s.entity r.entity then s ∷ rest else r ∷ s ∷ ss

unfoldable pub sort_reports : List SupervisionReport → List SupervisionReport
sort_reports [] = []
sort_reports (r ∷ rs) = insert_report r (sort_reports rs)

-- The order of the map's entities does not show in the sorted reports.
unfoldable pub evaluate_all :
    PlatformHealthManager → ℕ → PlatformHealthManager × List SupervisionReport
evaluate_all m timestamp_ms =
    let r = evaluate_each m (map (λ (e : String × EntityState). e.0) m.entities) timestamp_ms in
    (r.0, sort_reports r.1)
