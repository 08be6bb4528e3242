-- ===== src/Registry/Histories.antt =====
-- The records of a registry over its calls (registry_manager.cpp).
use open_autosar.Base.{
  ℕ, not, ◌&&◌, String, List, [], ◌∷◌, length, length-append, leb, Option-cases, Bool-cases,
  Result-cases, inl, inr, arith,
}
use open_autosar.Registry.{
  RegistryKind, RegistryState, same_state, RegistryRecord, RegistryPolicy, RegistryManager,
}
use open_autosar.Registry.Validation.{validate_record}
use open_autosar.Registry.Manager.{
  new, find_record, write_record, with_lease, has_conflicting_active_record, store_record,
  register_leased, register, moved, update_state, mark_stale,
}
use open_autosar.Registry.Records.{
  Call, registers, updates, marks_stale, step, run, Ordered, IsKeyed-write_record,
  length-write_record, IsKeyed-append, find_record-has_key, IsKeyed-aged, length-aged,
}

write_record-Ordered :
    (m : RegistryManager) (r : RegistryRecord)
    → Ordered m
    → Ordered (record m { records = write_record r m.records })
write_record-Ordered m r o = record {
  keyed = IsKeyed-write_record r m.records o.keyed;
  bounded = omega (arith, o.bounded, length-write_record r m.records);
}

store_record-Ordered :
    (m : RegistryManager) (r : RegistryRecord)
    → Ordered m
    → Ordered (store_record m r (find_record r.record_id r.kind m.records)).0
unfolding store_record
store_record-Ordered m r o = elim (Option-cases (find_record r.record_id r.kind m.records)) [
  | inr (s, found) ↦ rw (found) (write_record-Ordered m r o)
  | inl n ↦ elim (Bool-cases (leb m.policy.max_records (length m.records))) [
    | inl t ↦ rw (n, t) (record { keyed = o.keyed; bounded = o.bounded })
    | inr f ↦
        rw (n, f)
          (record {
            keyed =
                IsKeyed-append r m.records (find_record-has_key r.record_id r.kind m.records n)
                  o.keyed;
            bounded = ground (arith, f, length-append m.records (r ∷ []));
          })
  ]
]

register-Ordered : (m : RegistryManager) (r : RegistryRecord) → Ordered m → Ordered (register m r).0
unfolding register register_leased
register-Ordered m r o = elim (Result-cases (validate_record m.policy r)) [
  | inr (e, v) ↦ rw (register, v) (record { keyed = o.keyed; bounded = o.bounded })
  | inl (b, v) ↦
      let leased = with_lease m.policy r in
      let clash =
        m.policy.reject_duplicate_active_records && has_conflicting_active_record m leased in
      elim (Bool-cases clash) [
        | inl t ↦
            rw (register, v, register_leased, t) (record { keyed = o.keyed; bounded = o.bounded })
        | inr f ↦ rw (register, v, register_leased, f) (store_record-Ordered m leased o)
      ]
]

update_state-Ordered :
    (m : RegistryManager) (id : String) (kind : RegistryKind) (state : RegistryState)
    (timestamp_ms : ℕ)
    → Ordered m
    → Ordered (update_state m id kind state timestamp_ms).0
unfolding update_state
update_state-Ordered m id kind state timestamp_ms o =
    elim (Option-cases (find_record id kind m.records)) [
      | inl n ↦ rw (update_state, n) (record { keyed = o.keyed; bounded = o.bounded })
      | inr (r, found) ↦
          let barred =
            same_state r.state RegistryState.retired
            && not (same_state state RegistryState.declared) in
          elim (Bool-cases barred) [
            | inl t ↦ rw (update_state, found, t) (record { keyed = o.keyed; bounded = o.bounded })
            | inr f ↦
                rw (update_state, found, f) (write_record-Ordered m (moved state timestamp_ms r) o)
          ]
    ]

step-Ordered : (m : RegistryManager) (call : Call) → Ordered m → Ordered (step m call)
unfolding step mark_stale
step-Ordered m (registers r) o = register-Ordered m r o
step-Ordered m (updates id kind state timestamp_ms) o =
    update_state-Ordered m id kind state timestamp_ms o
step-Ordered m (marks_stale now_ms) o = record {
  keyed = IsKeyed-aged now_ms m.records o.keyed;
  bounded = omega (arith, o.bounded, length-aged now_ms m.records);
}

run_from : (m : RegistryManager) (calls : List Call) → Ordered m → Ordered (run m calls)
unfolding run
run_from m [] o = o
run_from m (call ∷ calls) o = run_from (step m call) calls (step-Ordered m call o)

-- After any sequence of registrations, state updates and stale marks of a new registry, no two
-- records have the same identifier and kind, and there are no more records than the policy allows.
pub run-Ordered : (policy : RegistryPolicy) (calls : List Call) → Ordered (run (new policy) calls)
run-Ordered policy calls =
    run_from (new policy) calls (record { keyed = tt; bounded = omega arith })
