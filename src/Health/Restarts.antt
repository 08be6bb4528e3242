-- ===== src/Health/Restarts.antt =====
-- The supervision of restarts (`ReportRestart` of platform_health_manager.cpp).
use open_autosar.Base.{
  ℕ, suc, List, [], ◌∷◌, length, ◌<◌, ◌≤◌, ◌≡◌, refl, ◌∙◌, ltb, true, false, some, arith, String,
  u32_mod, eq_refl, find, put, find-put, Result, from_value,
}
use open_autosar.Health.{
  SupervisionStatus, SupervisionReport, EntityState, PlatformHealthManager, same_status,
}
use open_autosar.Health.Supervision.{record_termination, record_restart}
use open_autosar.Health.Manager.{with_entity, report_process_termination, report_restart}

-- The manager after restarts of an entity at some times, the latest first, and the report on the
-- latest restart.
unfoldable pub restarts :
    PlatformHealthManager → String → ℕ → List ℕ → PlatformHealthManager × Result SupervisionReport
restarts m entity timestamp_ms [] = report_restart m entity timestamp_ms
restarts m entity timestamp_ms (earlier ∷ times) =
    report_restart (restarts m entity earlier times).0 entity timestamp_ms

find-put_self :
    (m : PlatformHealthManager) (entity : String) (s : EntityState)
    → find entity (put entity s m.entities) ≡ some s
find-put_self m entity s = find-put entity entity s m.entities ∙ rw (eq_refl entity) refl

report_restart_lem :
    (m : PlatformHealthManager) (entity : String) (t : ℕ) (s : EntityState)
    → find entity m.entities ≡ some s
    → ((report_restart m entity t).1 ≡ (record_restart s t).1)
      × (find entity (report_restart m entity t).0.entities ≡ some (record_restart s t).0)
unfolding report_restart with_entity
report_restart_lem m entity t s e =
    rw (report_restart, with_entity, e) (refl, find-put_self m entity (record_restart s t).0)

report_process_termination_lem :
    (m : PlatformHealthManager) (entity : String) (t : ℕ) (s : EntityState)
    → find entity m.entities ≡ some s
    → find entity (report_process_termination m entity t).0.entities
      ≡ some (record_termination s t).0
unfolding report_process_termination with_entity
report_process_termination_lem m entity t s e =
    rw (report_process_termination, with_entity, e)
      (find-put_self m entity (record_termination s t).0)

-- Whatever has been reported of a registered entity before, if its policy allows one restart, a
-- restart that follows the report of its termination is reported with a count of one and under the
-- status of the termination.
pub restart_after_termination :
    (m : PlatformHealthManager) (entity : String) (t u : ℕ) (s : EntityState)
    → find entity m.entities ≡ some s
    → 1 ≤ s.policy.max_restart_count
    → (r : SupervisionReport) × ((report_restart
          (report_process_termination m entity t).0
          entity
          u).1
        ≡ from_value r)
      × (r.restart_count ≡ 1)
      × (r.status ≡ SupervisionStatus.process_terminated)
unfolding record_restart record_termination
restart_after_termination m entity t u s e h =
    let p = report_process_termination_lem m entity t s e in
    let q =
      report_restart_lem (report_process_termination m entity t).0 entity u
        (record_termination s t).0 p in
    (
      record (record_termination s t).0.report {
        restart_count = 1;
        timestamp_ms = u;
        detail = "restart recorded";
      },
      q.0 ∙ ground arith,
      refl,
      refl,
    )

-- What is known after `k` restarts and no other report.
record Counted (s : EntityState) (max k : ℕ) : Type 0 where
  limit : s.policy.max_restart_count ≡ max
  count : ltb max k ≡ false → s.report.restart_count ≡ k
  exceeded : ltb max k ≡ true → s.report.restart_count ≡ suc max
  status : same_status s.report.status SupervisionStatus.restart_limit_exceeded ≡ ltb max k

record_restart-Counted :
    (s : EntityState) (max k t : ℕ)
    → suc (suc max) < u32_mod
    → Counted s max k
    → Counted (record_restart s t).0 max (suc k)
unfolding record_restart
record_restart-Counted s max k t b c = record {
  limit = ground (arith, c.limit);
  count = λ h. ground (arith, c.limit, c.count, h, b);
  exceeded = λ h. ground (arith, c.limit, c.count, c.exceeded, h, b);
  status = ground (arith, c.limit, c.count, c.exceeded, c.status, b);
}

-- The entity's state after the restarts.
restarts-Counted :
    (m : PlatformHealthManager) (entity : String) (t : ℕ) (ts : List ℕ) (max : ℕ) (s : EntityState)
    → find entity m.entities ≡ some s
    → suc (suc max) < u32_mod
    → Counted s max 0
    → (u : EntityState) × ((restarts m entity t ts).1 ≡ from_value u.report)
      × (find entity (restarts m entity t ts).0.entities ≡ some u)
      × Counted u max (suc (length ts))
unfolding restarts record_restart
restarts-Counted m entity t [] max s e b c =
    let q = report_restart_lem m entity t s e in
    ((record_restart s t).0, q.0 ∙ ground arith, q.1, record_restart-Counted s max 0 t b c)
restarts-Counted m entity t (v ∷ ts) max s e b c =
    let (u, _, f, d) = restarts-Counted m entity v ts max s e b c in
    let q = report_restart_lem (restarts m entity v ts).0 entity t u f in
    (
      (record_restart u t).0,
      q.0 ∙ ground arith,
      q.1,
      record_restart-Counted u max (suc (length ts)) t b d,
    )

-- For an entity without a recorded restart, the last of a run of restarts at any times, with no
-- other report between them, is reported as exceeding the limit exactly if they are more than the
-- configured number of restarts, which leaves room for two more in its type.
pub restarts_limit :
    (m : PlatformHealthManager) (entity : String) (t : ℕ) (ts : List ℕ) (s : EntityState)
    → find entity m.entities ≡ some s
    → suc (suc s.policy.max_restart_count) < u32_mod
    → s.report.restart_count ≡ 0
    → same_status s.report.status SupervisionStatus.restart_limit_exceeded ≡ false
    → (r : SupervisionReport) × ((restarts m entity t ts).1 ≡ from_value r)
      × (same_status r.status SupervisionStatus.restart_limit_exceeded
          ≡ ltb s.policy.max_restart_count (suc (length ts)))
restarts_limit m entity t ts s e b z n =
    let start : Counted s s.policy.max_restart_count 0 = record {
      limit = refl;
      count = λ _. z;
      exceeded = λ h. ground arith;
      status = ground arith;
    } in
    let (u, f, _, c) = restarts-Counted m entity t ts s.policy.max_restart_count s e b start in
    (u.report, f, c.status)
