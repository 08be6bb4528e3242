-- ===== src/Idsm/Forwarding.antt =====
-- What is counted of events that are recorded again and again (idsm_manager.cpp).
use open_autosar.Base.{
  ℕ, zero, suc, ◌+◌, ◌≤◌, ◌<◌, ◌==◌, leb, ltb, ◌≡◌, refl, ap, sym, subst, ◌∙◌, true, false,
  is_empty, eq_refl, List, [], ◌∷◌, ◌++◌, some, arith,
}
use open_autosar.Idsm.{IdsmEvent, IdsmPolicy, IdsmManager}
use open_autosar.Idsm.Recording.{
  new, joins, aggregate, should_forward, saturating_add, normalize, record_joined, record_new,
  record_prepared, record_event, same_aggregation_key, max_uint32, elapsed_ms,
}

-- The same event, again and again.
unfoldable pub repeat : ℕ → IdsmManager → IdsmEvent → IdsmManager
repeat zero m e = m
repeat (suc n) m e = repeat n (record_event m e).0 e

-- The one event that is stored after some of them.
abbrev pub with_count : IdsmEvent → ℕ → IdsmEvent
with_count e k = record e { count = k }

-- The sum of the numbers up to a number.
abbrev pub triangle : ℕ → ℕ
triangle zero = 0
triangle (suc k) = triangle k + suc k

triangle_mono : (k n : ℕ) → k ≤ n → triangle k ≤ triangle n
triangle_mono zero n h = omega arith
triangle_mono (suc k) zero h = absurd (omega arith)
triangle_mono (suc k) (suc n) h = omega (arith, triangle_mono k n (omega arith))

triangle_le : (k : ℕ) → k ≤ triangle k
triangle_le zero = omega arith
triangle_le (suc k) = omega (arith, triangle_le k)

-- The manager after `k` of them.
abbrev after : IdsmPolicy → IdsmEvent → ℕ → List IdsmEvent → ℕ → ℕ → IdsmManager
after policy e k queue dropped throttled = record {
  policy = policy;
  records = with_count (normalize policy e) k ∷ [];
  forwarding_queue = queue;
  dropped_events = dropped;
  throttled_events = throttled;
  forwarded_events = triangle k;
}

joins_self :
    (policy : IdsmPolicy) (x : IdsmEvent) (k : ℕ)
    → joins policy (with_count x k) (with_count x 1) ≡ true
unfolding same_aggregation_key
joins_self policy x k =
    ground
      (arith, eq_refl x.category, eq_refl x.detail, eq_refl x.principal_id, eq_refl x.resource_id)

aggregate_self :
    (policy : IdsmPolicy) (x : IdsmEvent) (k : ℕ)
    → aggregate policy (with_count x k ∷ []) (with_count x 1)
      ≡ some (record {
        records = with_count x (saturating_add k 1) ∷ [];
        stored = with_count x (saturating_add k 1);
        elapsed = elapsed_ms x.timestamp_ms x.timestamp_ms;
      })
unfolding aggregate
aggregate_self policy x k = rw (aggregate, joins_self policy x k) refl

saturating_add_lem : (a b : ℕ) → a + b ≤ max_uint32 → saturating_add a b ≡ a + b
unfolding saturating_add
saturating_add_lem a b h = ground arith

module _ (policy : IdsmPolicy) (e : IdsmEvent) (forwards : should_forward policy e ≡ true)
    (has_category : is_empty e.category ≡ false) (has_detail : is_empty e.detail ≡ false)
    (has_room : 0 < policy.max_records) where
  forwards_any : (k : ℕ) → should_forward policy (with_count (normalize policy e) k) ≡ true
  unfolding should_forward normalize
  forwards_any k = forwards

  record_joined_self :
      (k : ℕ) (queue : List IdsmEvent) (dropped throttled elapsed : ℕ)
      → suc k ≤ policy.rate_limit_count
      → triangle (suc k) ≤ max_uint32
      → (record_joined (after policy e k queue dropped throttled) (record {
        records = with_count (normalize policy e) (suc k) ∷ [];
        stored = with_count (normalize policy e) (suc k);
        elapsed = elapsed;
      })).0
        ≡ after policy e
            (suc k)
            (queue ++ (with_count (normalize policy e) (suc k) ∷ []))
            dropped
            throttled
  unfolding record_joined
  record_joined_self k queue dropped throttled elapsed h b =
      let unlimited : ltb policy.rate_limit_count (suc k) ≡ false = ground (arith, h) in
      rw (record_joined, unlimited, forwards_any (suc k), saturating_add_lem (triangle k) (suc k) b)
        refl

  record_prepared_self :
      (k : ℕ) (queue : List IdsmEvent) (dropped throttled : ℕ)
      → suc k ≤ policy.rate_limit_count
      → triangle (suc k) ≤ max_uint32
      → (record_prepared
          (after policy e k queue dropped throttled)
          (with_count (normalize policy e) 1)).0
        ≡ after policy e
            (suc k)
            (queue ++ (with_count (normalize policy e) (suc k) ∷ []))
            dropped
            throttled
  unfolding record_prepared
  record_prepared_self k queue dropped throttled h b =
      let sum : saturating_add k 1 ≡ suc k =
        saturating_add_lem k 1 (omega (arith, triangle_le (suc k), b)) ∙ omega arith in
      rw (record_prepared, aggregate_self policy (normalize policy e) k, sum)
        (record_joined_self k queue dropped throttled
          (elapsed_ms (normalize policy e).timestamp_ms (normalize policy e).timestamp_ms) h b)

  record_prepared_first :
      1 ≤ max_uint32
      → (record_prepared (new policy) (with_count (normalize policy e) 1)).0
        ≡ after policy e 1 (with_count (normalize policy e) 1 ∷ []) 0 0
  unfolding record_prepared record_new aggregate
  record_prepared_first b =
      let room : leb policy.max_records 0 ≡ false = ground (arith, has_room) in
      rw (record_new, room, forwards_any 1, saturating_add_lem 0 1 b) refl

  record_event_self :
      (m : IdsmManager)
      → m.policy ≡ policy
      → (record_event m (with_count e 1)).0
        ≡ (record_prepared m (with_count (normalize policy e) 1)).0
  unfolding record_event normalize
  record_event_self m same =
      let room : (policy.max_records == 0) ≡ false = ground (arith, has_room) in
      rw (record_event, same, room, has_category, has_detail) refl

  repeat_from :
      (n k : ℕ) (queue : List IdsmEvent) (dropped throttled : ℕ)
      → k + n ≤ policy.rate_limit_count
      → triangle (k + n) ≤ max_uint32
      → (repeat n (after policy e k queue dropped throttled) (with_count e 1)).forwarded_events
        ≡ triangle (k + n)
  unfolding repeat
  repeat_from zero k queue dropped throttled h b = ap triangle (omega arith)
  repeat_from (suc n) k queue dropped throttled h b =
      let size : suc k + n ≡ k + suc n = omega arith in
      let bound = triangle_mono (suc k) (k + suc n) (omega arith) in
      let next =
        record_event_self (after policy e k queue dropped throttled) refl
        ∙ record_prepared_self k queue dropped throttled (omega arith) (omega (arith, bound, b)) in
      ap (λ x. (repeat n x (with_count e 1)).forwarded_events) next
      ∙ (repeat_from n (suc k) (queue ++ (with_count (normalize policy e) (suc k) ∷ [])) dropped
            throttled (omega (arith, h)) (subst (λ j. triangle j ≤ max_uint32) (sym size) b)
          ∙ ap triangle size)

  -- A new manager that forwards a complete event and has room for it, and records that event, with
  -- a count of one and one time, `n` times, for a positive `n` up to the rate limit and small enough
  -- for 32 bits, says that it has forwarded as many events as the numbers from one to `n` together.
  pub repeat_forwarded :
      (n : ℕ)
      → 0 < n
      → n ≤ policy.rate_limit_count
      → triangle n ≤ max_uint32
      → (repeat n (new policy) (with_count e 1)).forwarded_events ≡ triangle n
  unfolding repeat
  repeat_forwarded zero p h b = absurd (omega arith)
  repeat_forwarded (suc n) p h b =
      let bound = triangle_mono 1 (suc n) (omega arith) in
      let next = record_event_self (new policy) refl ∙ record_prepared_first (omega arith) in
      let size : 1 + n ≡ suc n = omega arith in
      ap (λ x. (repeat n x (with_count e 1)).forwarded_events) next
      ∙ (repeat_from n 1 (with_count (normalize policy e) 1 ∷ []) 0 0 (omega (arith, h))
            (subst (λ j. triangle j ≤ max_uint32) (sym size) b)
          ∙ ap triangle size)
