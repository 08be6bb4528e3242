-- ===== src/Health/Alive.antt =====
-- The supervision of alive checkpoints (`EvaluateAlive` of platform_health_manager.cpp).
use native.Mathlib.Nat.{div-mul-le_self, lt-div-mul-add, div-le_self}
use open_autosar.Base.{
  ℕ, suc, ◌+◌, ◌-◌, ◌*◌, ◌/◌, ◌<◌, ◌≤◌, ◌≡◌, refl, ap, true, Option, arith, u32, u64, u32_mod,
  u64_mod, to_u64, from_value,
}
use open_autosar.Health.{
  healthy, SupervisionStatus, RecoveryAction, SupervisionPolicy, SupervisionReport, EntityState,
}
use open_autosar.Health.Supervision.{
  alive_reference, missed_alive_windows, health_for_missed_alive, action_for_health, record_alive,
  alive_report, validate_policy,
}

windows_lem :
    (timeout reference timestamp_ms : ℕ)
    → 0 < timeout
    → reference + timeout < timestamp_ms
    → timestamp_ms < u32_mod
    → (q : ℕ) × (u32 (u64 ((timestamp_ms - (reference + timeout)) / timeout + 1)) ≡ suc q)
      × (reference + timeout + q * timeout ≤ timestamp_ms)
      × (timestamp_ms < reference + timeout + (q * timeout + timeout))
windows_lem timeout reference timestamp_ms p l b =
    let x = timestamp_ms - (reference + timeout) in
    (
      x / timeout,
      omega (arith, div-le_self x timeout),
      omega (arith, div-mul-le_self x timeout),
      omega (arith, lt-div-mul-add {a = x} {b = timeout} p),
    )

-- With a positive alive timeout, an entity whose last checkpoint, or else its activation, lies
-- longer ago than that timeout has missed `q + 1` windows, where at least `q + 1` and less than `q
-- + 2` timeouts have passed since then; the time is below 2^32 ms.
pub missed_alive_windows_late :
    (policy : SupervisionPolicy) (last : Option ℕ) (timestamp_ms : ℕ)
    → 0 < to_u64 policy.alive_timeout
    → alive_reference policy last + to_u64 policy.alive_timeout < timestamp_ms
    → timestamp_ms < u32_mod
    → (q : ℕ) × (missed_alive_windows policy last timestamp_ms ≡ suc q)
      × (alive_reference policy last + to_u64 policy.alive_timeout + q * to_u64 policy.alive_timeout
          ≤ timestamp_ms)
      × (timestamp_ms
          < alive_reference policy last
            + to_u64 policy.alive_timeout
            + (q * to_u64 policy.alive_timeout + to_u64 policy.alive_timeout))
unfolding missed_alive_windows
missed_alive_windows_late policy last timestamp_ms p l b =
    let (q, e, lo, hi) =
      windows_lem (to_u64 policy.alive_timeout) (alive_reference policy last) timestamp_ms p l b in
    (q, ground (arith, e), lo, hi)

missed_alive_windows_timely :
    (policy : SupervisionPolicy) (last : Option ℕ) (timestamp_ms : ℕ)
    → alive_reference policy last + to_u64 policy.alive_timeout < u64_mod
    → timestamp_ms ≤ alive_reference policy last + to_u64 policy.alive_timeout
    → missed_alive_windows policy last timestamp_ms ≡ 0
unfolding missed_alive_windows
missed_alive_windows_timely policy last timestamp_ms b h = ground arith

health_for_none :
    (policy : SupervisionPolicy)
    → validate_policy policy ≡ from_value true
    → health_for_missed_alive policy 0 ≡ healthy
unfolding health_for_missed_alive validate_policy
health_for_none policy v = ground arith

-- With a valid policy, an entity is reported as healthy, with no missed window and no action, if no
-- more than its alive timeout has passed since its last checkpoint or else its activation, and the
-- end of that timeout fits in 64 bits.
pub record_alive_timely :
    (s : EntityState) (timestamp_ms : ℕ)
    → validate_policy s.policy ≡ from_value true
    → alive_reference s.policy s.last_checkpoint_time_ms + to_u64 s.policy.alive_timeout < u64_mod
    → timestamp_ms
      ≤ alive_reference s.policy s.last_checkpoint_time_ms + to_u64 s.policy.alive_timeout
    → (r : SupervisionReport) × ((record_alive s timestamp_ms).1 ≡ from_value r)
      × (r.health ≡ healthy)
      × (r.status ≡ SupervisionStatus.ok)
      × (r.action ≡ RecoveryAction.ignore)
      × (r.missed_alive_count ≡ 0)
unfolding record_alive action_for_health
record_alive_timely s timestamp_ms v b h = (
  alive_report s 0 timestamp_ms,
  ap (λ k. from_value (alive_report s k timestamp_ms))
      (missed_alive_windows_timely s.policy s.last_checkpoint_time_ms timestamp_ms b h),
  health_for_none s.policy v,
  refl,
  ap (action_for_health s.policy) (health_for_none s.policy v),
  refl,
)
