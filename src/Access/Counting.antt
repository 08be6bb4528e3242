-- ===== src/Access/Counting.antt =====
-- How many security events are stored and counted (identity_access_manager.cpp).
use open_autosar.Base.{
  ℕ, ◌+◌, ◌<◌, ◌≤◌, ◌≡◌, refl, ap, ◌==◌, ltb, true, false, ◌||◌, List, [], ◌∷◌, ◌++◌, none, some,
  length, length-append, any_of, u32_mod, arith, if◌then◌else◌, from_value, Option-cases, inl, inr,
}
use open_autosar.Access.{SecurityEvent, SecurityEventPolicy}
use open_autosar.Access.Events.{
  SecurityEventCollector, aggregate, joins, at_least_one, push_event, stored_events, record_event,
}

-- How many events are counted.
unfoldable pub total : List SecurityEvent → ℕ
total [] = 0
total (e ∷ es) = e.count + total es

total-append : (xs ys : List SecurityEvent) → total (xs ++ ys) ≡ total xs + total ys
unfolding total
total-append [] ys = omega arith
total-append (x ∷ xs) ys = omega (arith, total-append xs ys)

aggregate-total :
    (policy : SecurityEventPolicy) (es fs : List SecurityEvent) (e : SecurityEvent)
    → aggregate policy es e ≡ some fs
    → total es + e.count < u32_mod
    → (total fs ≡ total es + e.count) × (length fs ≡ length es)
unfolding aggregate total
aggregate-total policy [] fs e h b = ground arith
aggregate-total policy (x ∷ es) fs e h b = elim (Option-cases (aggregate policy es e)) [
  | inl none_left ↦ ground (arith, h, none_left, ap total, ap {A = List SecurityEvent} length)
  | inr (rest, found) ↦
      let (sum, size) = aggregate-total policy es rest e found (omega arith) in
      ground (arith, h, found, sum, size)
]

push_event-size :
    (policy : SecurityEventPolicy) (es : List SecurityEvent) (e : SecurityEvent)
    → 0 < policy.max_events
    → length es ≤ policy.max_events
    → length (push_event policy es e) ≤ policy.max_events
push_event-size policy [] e p h = ground arith
push_event-size policy (x ∷ es) e p h =
    ground (arith, length-append {0} es (e ∷ []), length-append {0} (x ∷ es) (e ∷ []))

-- The count of the oldest event.
oldest : List SecurityEvent → ℕ
oldest [] = 0
oldest (e ∷ es) = e.count

-- The count that a report removes: that of the oldest event, if no stored event takes the reported
-- one in and there is no room for one more.
unfoldable pub lost : SecurityEventPolicy → List SecurityEvent → SecurityEvent → ℕ
unfolding oldest
lost policy es e =
    if any_of (λ s. joins policy s e) es || ltb (length es) policy.max_events then 0 else oldest es

push_event-total :
    (policy : SecurityEventPolicy) (es : List SecurityEvent) (e : SecurityEvent)
    → any_of (λ s. joins policy s e) es ≡ false
    → total (push_event policy es e) + lost policy es e ≡ total es + e.count
unfolding total lost oldest
push_event-total policy [] e n = ground (arith, n)
push_event-total policy (x ∷ es) e n =
    ground (arith, n, total-append es (e ∷ []), total-append (x ∷ es) (e ∷ []))

aggregate-joins :
    (policy : SecurityEventPolicy) (es fs : List SecurityEvent) (e : SecurityEvent)
    → aggregate policy es e ≡ some fs
    → any_of (λ s. joins policy s e) es ≡ true
unfolding aggregate
aggregate-joins policy [] fs e h = ground arith
aggregate-joins policy (x ∷ es) fs e h = elim (Option-cases (aggregate policy es e)) [
  | inl none_left ↦ ground (arith, h, none_left)
  | inr (rest, found) ↦ ground (arith, h, found, aggregate-joins policy es rest e found)
]

aggregate-none :
    (policy : SecurityEventPolicy) (es : List SecurityEvent) (e : SecurityEvent)
    → aggregate policy es e ≡ none
    → any_of (λ s. joins policy s e) es ≡ false
unfolding aggregate
aggregate-none policy [] e h = ground arith
aggregate-none policy (x ∷ es) e h = elim (Option-cases (aggregate policy es e)) [
  | inl none_left ↦ ground (arith, h, none_left, aggregate-none policy es e none_left)
  | inr (rest, found) ↦ ground (arith, h, found)
]

lost-joined :
    (policy : SecurityEventPolicy) (es : List SecurityEvent) (e : SecurityEvent)
    → any_of (λ s. joins policy s e) es ≡ true
    → lost policy es e ≡ 0
unfolding lost
lost-joined policy es e h = rw h refl

-- The events of a collector after a report.
after : SecurityEventCollector → SecurityEvent → List SecurityEvent
after c e = stored_events c.policy c.events e (aggregate c.policy c.events e)

after-counts :
    (c : SecurityEventCollector) (e : SecurityEvent)
    → 0 < c.policy.max_events
    → length c.events ≤ c.policy.max_events
    → total c.events + e.count < u32_mod
    → (length (after c e) ≤ c.policy.max_events)
      × (total (after c e) + lost c.policy c.events e ≡ total c.events + e.count)
unfolding after
after-counts c e p h b = elim (Option-cases (aggregate c.policy c.events e)) [
  | inl none_joins ↦ rw none_joins (
    push_event-size c.policy c.events e p h,
    push_event-total c.policy c.events e (aggregate-none c.policy c.events e none_joins),
  )
  | inr (joined, found) ↦
      let (sum, size) = aggregate-total c.policy c.events joined e found b in
      let kept =
        lost-joined c.policy c.events e (aggregate-joins c.policy c.events joined e found) in
      rw found (omega arith, omega (arith, sum, kept))
]

at_least_one-count :
    (e : SecurityEvent) → (at_least_one e).count ≡ (if e.count == 0 then 1 else e.count)
at_least_one-count e = ground arith

-- For a collector with room for events at all, which stores no more of them than its policy allows,
-- and counts that fit 32 bits, a recorded event leaves no more events than the policy allows and
-- adds its own count, or one for a count of zero, to the total; if the collector is full and no
-- stored event takes the new one in, and only then, the count of the oldest event is lost.
pub record_event-counts :
    (c : SecurityEventCollector) (e : SecurityEvent)
    → 0 < c.policy.max_events
    → length c.events ≤ c.policy.max_events
    → total c.events + (if e.count == 0 then 1 else e.count) < u32_mod
    → (record_event c e).1 ≡ from_value true
    → (length (record_event c e).0.events ≤ c.policy.max_events)
      × (total (record_event c e).0.events + lost c.policy c.events (at_least_one e)
          ≡ total c.events + (if e.count == 0 then 1 else e.count))
unfolding record_event after
record_event-counts c e p h b ok =
    let fits : total c.events + (at_least_one e).count < u32_mod =
      omega (arith, b, at_least_one-count e) in
    let (size, sum) = after-counts c (at_least_one e) p h fits in
    ground (arith, size, sum, at_least_one-count e, ok)
