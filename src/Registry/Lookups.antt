-- ===== src/Registry/Lookups.antt =====
-- Which record a lookup finds (registry_manager.cpp).
use open_autosar.Base.{
  ◌≡◌, refl, ◌∙◌, true, false, ◌&&◌, String, eq_iff, eq_refl, List, [], ◌∷◌, ◌++◌, length, leb,
  none, some, Option-cases, Bool-cases, Result-cases, inl, inr, arith, if◌then◌else◌, from_value,
}
use open_autosar.Registry.{RegistryKind, RegistryRecord, RegistryManager}
use open_autosar.Registry.Validation.{validate_record}
use open_autosar.Registry.Manager.{
  is_record, find_record, write_record, with_lease, has_conflicting_active_record, store_record,
  register_leased, register, lookup,
}

pub is_record_self : (r : RegistryRecord) → is_record r.record_id r.kind r ≡ true
unfolding is_record
is_record_self r = ground (arith, eq_refl r.record_id)

pub is_record_same :
    (r s : RegistryRecord) (id : String) (kind : RegistryKind)
    → is_record r.record_id r.kind s ≡ true
    → is_record id kind s ≡ is_record id kind r
unfolding is_record
is_record_same r s id kind h =
    ground (arith, h, eq_iff s.record_id r.record_id, eq_iff s.record_id id, eq_iff r.record_id id)

pub is_record_sym :
    (r s : RegistryRecord) → is_record r.record_id r.kind s ≡ is_record s.record_id s.kind r
unfolding is_record
is_record_sym r s = ground (arith, eq_iff s.record_id r.record_id, eq_iff r.record_id s.record_id)

-- A lookup after the write of a record that is there.
find_record-write_record :
    (r s : RegistryRecord) (records : List RegistryRecord)
    → find_record r.record_id r.kind records ≡ some s
    → find_record r.record_id r.kind (write_record r records) ≡ some r
unfolding find_record write_record
find_record-write_record r s [] h = absurd (ground (arith, h))
find_record-write_record r s (x ∷ records) h = elim (Bool-cases (is_record r.record_id r.kind x)) [
  | inl t ↦ rw (t, is_record_self r) refl
  | inr f ↦ rw (f, f) (find_record-write_record r s records (rw (f) at h))
]

find_record-append :
    (r : RegistryRecord) (records : List RegistryRecord)
    → find_record r.record_id r.kind records ≡ none
    → find_record r.record_id r.kind (records ++ (r ∷ [])) ≡ some r
unfolding find_record
find_record-append r [] h = rw (is_record_self r) refl
find_record-append r (x ∷ records) h = elim (Bool-cases (is_record r.record_id r.kind x)) [
  | inl t ↦ absurd (ground (arith, h, t))
  | inr f ↦ rw (f) (find_record-append r records (rw (f) at h))
]

-- Another record is found as before.
find_record_other-write_record :
    (r : RegistryRecord) (id : String) (kind : RegistryKind) (records : List RegistryRecord)
    → is_record id kind r ≡ false
    → find_record id kind (write_record r records) ≡ find_record id kind records
unfolding find_record write_record
find_record_other-write_record r id kind [] h = refl
find_record_other-write_record r id kind (x ∷ records) h =
    elim (Bool-cases (is_record r.record_id r.kind x)) [
      | inl t ↦ rw (t, h, is_record_same r x id kind t, h) refl
      | inr f ↦ elim (Bool-cases (is_record id kind x)) [
        | inl u ↦ rw (f, u) refl
        | inr g ↦ rw (f, g) (find_record_other-write_record r id kind records h)
      ]
    ]

find_record_other-append :
    (r : RegistryRecord) (id : String) (kind : RegistryKind) (records : List RegistryRecord)
    → is_record id kind r ≡ false
    → find_record id kind (records ++ (r ∷ [])) ≡ find_record id kind records
unfolding find_record
find_record_other-append r id kind [] h = rw (h) refl
find_record_other-append r id kind (x ∷ records) h = elim (Bool-cases (is_record id kind x)) [
  | inl u ↦ rw (u) refl
  | inr g ↦ rw (g) (find_record_other-append r id kind records h)
]

-- What is found after a record is stored.
record Found (m m' : RegistryManager) (r : RegistryRecord) : Type 0 where
  same : find_record r.record_id r.kind m'.records ≡ some r
  others :
      (id : String) (kind : RegistryKind)
      → is_record id kind r ≡ false
      → find_record id kind m'.records ≡ find_record id kind m.records

store_record-Found :
    (m : RegistryManager) (r r' : RegistryRecord)
    → (store_record m r (find_record r.record_id r.kind m.records)).1 ≡ from_value r'
    → (r' ≡ r) × Found m (store_record m r (find_record r.record_id r.kind m.records)).0 r
unfolding store_record
store_record-Found m r r' h = elim (Option-cases (find_record r.record_id r.kind m.records)) [
  | inr (s, found) ↦ rw (found) (
    ground (arith, h, found),
    record {
      same = find_record-write_record r s m.records found;
      others = λ id kind k. find_record_other-write_record r id kind m.records k;
    },
  )
  | inl n ↦ elim (Bool-cases (leb m.policy.max_records (length m.records))) [
    | inl t ↦ absurd (ground (arith, h, n, t))
    | inr f ↦
        rw (n, f)
          (
            ground (arith, h, n, f),
            record {
              same = find_record-append r m.records n;
              others = λ id kind k. find_record_other-append r id kind m.records k;
            },
          )
  ]
]

register-Found :
    (m : RegistryManager) (r r' : RegistryRecord)
    → (register m r).1 ≡ from_value r'
    → Found m (register m r).0 r'
unfolding register register_leased
register-Found m r r' h = elim (Result-cases (validate_record m.policy r)) [
  | inr (e, v) ↦ absurd (ground (arith, h, v))
  | inl (b, v) ↦
      let leased = with_lease m.policy r in
      let clash =
        m.policy.reject_duplicate_active_records && has_conflicting_active_record m leased in
      elim (Bool-cases clash) [
        | inl t ↦ absurd (ground (arith, h, v, t))
        | inr f ↦
            let (same, found) =
              store_record-Found m leased r' (rw (register, v, register_leased, f) at h) in
            rw (register, v, register_leased, f, same) found
      ]
]

is_record_key :
    (r x : RegistryRecord) (id : String) (kind : RegistryKind)
    → is_record id kind r ≡ true
    → is_record id kind x ≡ is_record r.record_id r.kind x
unfolding is_record
is_record_key r x id kind h =
    ground (arith, h, eq_iff x.record_id r.record_id, eq_iff x.record_id id, eq_iff r.record_id id)

find_record_key :
    (r : RegistryRecord) (id : String) (kind : RegistryKind) (records : List RegistryRecord)
    → is_record id kind r ≡ true
    → find_record id kind records ≡ find_record r.record_id r.kind records
unfolding find_record
find_record_key r id kind [] h = refl
find_record_key r id kind (x ∷ records) h =
    rw (is_record_key r x id kind h, find_record_key r id kind records h) refl

-- After a registration that gives a record, a lookup of its identifier and kind finds that record,
-- and any other lookup finds what it found before.
pub lookup-register :
    (m : RegistryManager) (r r' : RegistryRecord) (id : String) (kind : RegistryKind)
    → (register m r).1 ≡ from_value r'
    → lookup (register m r).0 id kind ≡ (if is_record id kind r' then some r' else lookup m id kind)
lookup-register m r r' id kind h =
    let found = register-Found m r r' h in
    elim (Bool-cases (is_record id kind r')) [
      | inl t ↦ rw (t) (find_record_key r' id kind (register m r).0.records t ∙ found.same)
      | inr f ↦ rw (f) (found.others id kind f)
    ]
