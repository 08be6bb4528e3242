-- ===== src/Idsm/Privacy.antt =====
-- What is stored and forwarded of an event (idsm_manager.cpp).
use open_autosar.Base.{
  ℕ, ◌≤◌, ◌<◌, ◌==◌, leb, ltb, ◌≡◌, refl, Bool, true, false, not, ◌&&◌, ◌||◌, String, is_empty,
  str_eq, List, [], ◌∷◌, ◌++◌, length, length-append, drop, all_of, some, Option-cases, Bool-cases,
  inl, inr, arith, if◌then◌else◌,
}
use open_autosar.Idsm.{
  PrivacyMode, hides_principal, hides_resource, IdsmEvent, IdsmPolicy, IdsmManager,
}
use open_autosar.Idsm.Recording.{
  new, Joined, join, joins, aggregate, should_forward, redacted, normalize, prepared, forward,
  record_joined, make_room, push_record, record_new, record_prepared, record_event,
  record_security_event, drain_forwarding_batch,
}
use open_autosar.Idsm.Calls.{Call, records_event, records_security_event, drains, step, run}

abbrev pub is_hidden : Bool → String → Bool
is_hidden hides s = not hides || is_empty s || str_eq s "redacted"

-- The event names no one whom the privacy mode hides.
unfoldable pub is_private : PrivacyMode → IdsmEvent → Bool
is_private mode e =
    is_hidden (hides_principal mode) e.principal_id && is_hidden (hides_resource mode) e.resource_id

is_hidden-redacted : (hides : Bool) (s : String) → is_hidden hides (redacted hides s) ≡ true
is_hidden-redacted false s = refl
is_hidden-redacted true s = elim (Bool-cases (is_empty s)) [
  | inl t ↦ rw (t, t) refl
  | inr f ↦ rw (f) refl
]

is_private-normalize :
    (policy : IdsmPolicy) (e : IdsmEvent)
    → is_private policy.privacy_mode (normalize policy e) ≡ true
unfolding is_private normalize
is_private-normalize policy e =
    rw
      (
        is_hidden-redacted (hides_principal policy.privacy_mode) e.principal_id,
        is_hidden-redacted (hides_resource policy.privacy_mode) e.resource_id,
      )
      refl

-- What holds of a manager: its stored events are private and within the budget, and its queue has
-- private events that are to be forwarded.
pub record Discreet (m : IdsmManager) : Type 0 where
  stored : all_of (is_private m.policy.privacy_mode) m.records ≡ true
  queued : all_of (is_private m.policy.privacy_mode) m.forwarding_queue ≡ true
  wanted : all_of (should_forward m.policy) m.forwarding_queue ≡ true
  bounded : length m.records ≤ m.policy.max_records

all_of-append :
    (p : IdsmEvent → Bool) (xs : List IdsmEvent) (x : IdsmEvent)
    → all_of p xs ≡ true
    → p x ≡ true
    → all_of p (xs ++ (x ∷ [])) ≡ true
all_of-append p [] x h k = ground (arith, k)
all_of-append p (y ∷ xs) x h k = ground (arith, h, k, all_of-append p xs x)

all_of-drop :
    (p : IdsmEvent → Bool) (xs : List IdsmEvent) → all_of p xs ≡ true → all_of p (drop 1 xs) ≡ true
all_of-drop p [] h = refl
all_of-drop p (x ∷ xs) h = ground (arith, h)

is_private-join :
    (mode : PrivacyMode) (stored event : IdsmEvent)
    → is_private mode (join stored event) ≡ is_private mode stored
unfolding is_private
is_private-join mode stored event = refl

aggregate-private :
    (policy : IdsmPolicy) (events : List IdsmEvent) (event : IdsmEvent) (j : Joined)
    → aggregate policy events event ≡ some j
    → all_of (is_private policy.privacy_mode) events ≡ true
    → (all_of (is_private policy.privacy_mode) j.records ≡ true)
      × (is_private policy.privacy_mode j.stored ≡ true)
      × (length j.records ≡ length events)
unfolding aggregate
aggregate-private policy [] event j h a = absurd (ground (arith, h))
aggregate-private policy (s ∷ events) event j h a = elim (Bool-cases (joins policy s event)) [
  | inl t ↦
      let same = is_private-join policy.privacy_mode s event in
      let records : j.records ≡ join s event ∷ events = ground (arith, h, t) in
      let stored : j.stored ≡ join s event = ground (arith, h, t) in
      rw (records, stored, same) (ground (arith, a), ground (arith, a), refl)
  | inr f ↦ elim (Option-cases (aggregate policy events event)) [
    | inl n ↦ absurd (ground (arith, h, f, n))
    | inr (k, found) ↦
        let (rest, stored_private, size) =
          aggregate-private policy events event k found (ground (arith, a)) in
        let records : j.records ≡ s ∷ k.records = ground (arith, h, f, found) in
        let stored : j.stored ≡ k.stored = ground (arith, h, f, found) in
        rw (records, stored) (ground (arith, a, rest), stored_private, omega (arith, size))
  ]
]

forward-Discreet :
    (m : IdsmManager) (e : IdsmEvent)
    → is_private m.policy.privacy_mode e ≡ true
    → Discreet m
    → Discreet (forward e m)
forward-Discreet m e h d = elim (Bool-cases (should_forward m.policy e)) [
  | inr f ↦ rw (f) d
  | inl t ↦ rw (t) (record {
    stored = d.stored;
    queued = all_of-append (is_private m.policy.privacy_mode) m.forwarding_queue e d.queued h;
    wanted = all_of-append (should_forward m.policy) m.forwarding_queue e d.wanted t;
    bounded = d.bounded;
  })
]

record_joined-Discreet :
    (m : IdsmManager) (j : Joined)
    → all_of (is_private m.policy.privacy_mode) j.records ≡ true
    → is_private m.policy.privacy_mode j.stored ≡ true
    → length j.records ≡ length m.records
    → Discreet m
    → Discreet (record_joined m j).0
unfolding record_joined
record_joined-Discreet m j rest h size d =
    let m' : IdsmManager = record m { records = j.records } in
    let limited =
      ltb m.policy.rate_limit_count j.stored.count && leb j.elapsed m.policy.rate_limit_window_ms in
    let kept : Discreet m' = record {
      stored = rest;
      queued = d.queued;
      wanted = d.wanted;
      bounded = omega (arith, size, d.bounded);
    } in
    elim (Bool-cases limited) [
      | inl t ↦
          rw (t)
            (record { stored = rest; queued = d.queued; wanted = d.wanted; bounded = kept.bounded })
      | inr f ↦ rw (f) (forward-Discreet m' j.stored h kept)
    ]

-- A manager that has room for one more event.
make_room-Discreet :
    (m : IdsmManager)
    → 0 < m.policy.max_records
    → Discreet m
    → Discreet (make_room m) × (length (make_room m).records < m.policy.max_records)
make_room-Discreet m p d = elim (Bool-cases (leb m.policy.max_records (length m.records))) [
  | inr f ↦ rw (f) (d, ground (arith, f))
  | inl t ↦
      let size : length (drop 1 m.records) < m.policy.max_records =
        dropped m.records m.policy.max_records p d.bounded in
      rw (t) (
        record {
          stored = all_of-drop (is_private m.policy.privacy_mode) m.records d.stored;
          queued = d.queued;
          wanted = d.wanted;
          bounded = omega (arith, size);
        },
        size,
      )
]
  where
    dropped : (xs : List IdsmEvent) (n : ℕ) → 0 < n → length xs ≤ n → length (drop 1 xs) < n
    dropped [] n p h = p
    dropped (x ∷ xs) n p h = omega arith

forward-keeps :
    (m : IdsmManager) (e : IdsmEvent)
    → ((forward e m).records ≡ m.records) × ((forward e m).policy ≡ m.policy)
forward-keeps m e = elim (Bool-cases (should_forward m.policy e)) [
  | inl t ↦ rw (t) (refl, refl)
  | inr f ↦ rw (f) (refl, refl)
]

make_room-policy : (m : IdsmManager) → (make_room m).policy ≡ m.policy
make_room-policy m = elim (Bool-cases (leb m.policy.max_records (length m.records))) [
  | inl t ↦ rw (t) refl
  | inr f ↦ rw (f) refl
]

push_record-Discreet :
    (m : IdsmManager) (e : IdsmEvent)
    → is_private m.policy.privacy_mode e ≡ true
    → length m.records < m.policy.max_records
    → Discreet m
    → Discreet (push_record e m)
push_record-Discreet m e h b d = record {
  stored = all_of-append (is_private m.policy.privacy_mode) m.records e d.stored h;
  queued = d.queued;
  wanted = d.wanted;
  bounded = omega (arith, b, length-append m.records (e ∷ []));
}

record_new-Discreet :
    (m : IdsmManager) (e : IdsmEvent)
    → 0 < m.policy.max_records
    → is_private m.policy.privacy_mode e ≡ true
    → Discreet m
    → Discreet (record_new m e).0
unfolding record_new
record_new-Discreet m e p h d =
    let (room, size) = make_room-Discreet m p d in
    let policy = make_room-policy m in
    let private : is_private (make_room m).policy.privacy_mode e ≡ true = rw policy h in
    let (records, same) = forward-keeps (make_room m) e in
    push_record-Discreet (forward e (make_room m)) e (rw same private)
      (rw (records, same, policy) size) (forward-Discreet (make_room m) e private room)

record_prepared-Discreet :
    (m : IdsmManager) (e : IdsmEvent)
    → 0 < m.policy.max_records
    → is_private m.policy.privacy_mode e ≡ true
    → Discreet m
    → Discreet (record_prepared m e).0
unfolding record_prepared
record_prepared-Discreet m e p h d = elim (Option-cases (aggregate m.policy m.records e)) [
  | inl n ↦ rw (record_prepared, n) (record_new-Discreet m e p h d)
  | inr (j, found) ↦
      let (rest, stored, size) = aggregate-private m.policy m.records e j found d.stored in
      rw (record_prepared, found) (record_joined-Discreet m j rest stored size d)
]

record_event-Discreet :
    (m : IdsmManager) (e : IdsmEvent) → Discreet m → Discreet (record_event m e).0
unfolding record_event
record_event-Discreet m e d = elim (Bool-cases (m.policy.max_records == 0)) [
  | inl t ↦ rw (t) d
  | inr f ↦ elim (Bool-cases (is_empty e.category || is_empty e.detail)) [
    | inl t ↦ rw (f, t) d
    | inr g ↦
        let counted : IdsmEvent = if e.count == 0 then record e { count = 1 } else e in
        rw (f, g)
          (record_prepared-Discreet m (prepared m.policy e) (ground (arith, f))
            (is_private-normalize m.policy counted) d)
  ]
]

step-Discreet : (m : IdsmManager) (call : Call) → Discreet m → Discreet (step m call)
unfolding step record_security_event drain_forwarding_batch
step-Discreet m (records_event e) d = record_event-Discreet m e d
step-Discreet m (records_security_event e) d = record_event-Discreet m _ d
step-Discreet m drains d = record {
  stored = d.stored;
  queued = refl;
  wanted = refl;
  bounded = d.bounded;
}

run_from : (m : IdsmManager) (calls : List Call) → Discreet m → Discreet (run m calls)
unfolding run
run_from m [] d = d
run_from m (call ∷ calls) d = run_from (step m call) calls (step-Discreet m call d)

-- After any sequence of calls of a new manager, no stored event and none that waits to be forwarded
-- shows a principal or a resource that the privacy mode hides, every event that waits is one that
-- the policy forwards, and no more events are stored than the policy allows.
pub run-Discreet : (policy : IdsmPolicy) (calls : List Call) → Discreet (run (new policy) calls)
run-Discreet policy calls =
    run_from (new policy) calls
      (record { stored = refl; queued = refl; wanted = refl; bounded = omega arith })
