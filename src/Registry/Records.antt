-- ===== src/Registry/Records.antt =====
-- The records of a registry: one for each key, and no more than the budget (registry_manager.cpp).
use open_autosar.Base.{
  ℕ, suc, ◌≤◌, ◌≡◌, refl, ap, sym, ◌∙◌, Bool, true, false, ◌&&◌, ◌||◌, String, List, [], ◌∷◌, ◌++◌,
  map, any_of, length, ltb, none, Bool-cases, inl, inr, arith,
}
use open_autosar.Registry.{RegistryKind, RegistryState, same_state, RegistryRecord, RegistryManager}
use open_autosar.Registry.Validation.{is_leased}
use open_autosar.Registry.Manager.{
  is_record, find_record, write_record, register, update_state, aged, age_ms, mark_stale,
}
use open_autosar.Registry.Lookups.{is_record_same, is_record_sym}

pub data Call : Type 0 where
  registers : RegistryRecord → Call
  updates : String → RegistryKind → RegistryState → ℕ → Call
  marks_stale : ℕ → Call

unfoldable pub step : RegistryManager → Call → RegistryManager
step m (registers r) = (register m r).0
step m (updates id kind state timestamp_ms) = (update_state m id kind state timestamp_ms).0
step m (marks_stale now_ms) = mark_stale m now_ms

unfoldable pub run : RegistryManager → List Call → RegistryManager
run m [] = m
run m (call ∷ calls) = run (step m call) calls

abbrev pub has_key : String → RegistryKind → List RegistryRecord → Bool
has_key id kind records = any_of (is_record id kind) records

-- No two records have one identifier and kind.
abbrev pub IsKeyed : List RegistryRecord → Type 0
IsKeyed [] = Unit
IsKeyed (r ∷ records) = (has_key r.record_id r.kind records ≡ false) × IsKeyed records

pub record Ordered (m : RegistryManager) : Type 0 where
  pub keyed : IsKeyed m.records
  pub bounded : length m.records ≤ m.policy.max_records

has_key-write_record :
    (r : RegistryRecord) (id : String) (kind : RegistryKind) (records : List RegistryRecord)
    → has_key id kind (write_record r records) ≡ has_key id kind records
unfolding write_record
has_key-write_record r id kind [] = refl
has_key-write_record r id kind (x ∷ records) = elim (Bool-cases (is_record r.record_id r.kind x)) [
  | inl t ↦ rw (t, is_record_same r x id kind t) refl
  | inr f ↦ rw (f, has_key-write_record r id kind records) refl
]

-- Two records of one key are not told apart.
has_key_same :
    (r x : RegistryRecord) (records : List RegistryRecord)
    → is_record r.record_id r.kind x ≡ true
    → has_key r.record_id r.kind records ≡ has_key x.record_id x.kind records
has_key_same r x [] h = refl
has_key_same r x (y ∷ records) h =
    rw
      (
        is_record_sym r y,
        is_record_sym x y,
        sym (is_record_same r x y.record_id y.kind h),
        has_key_same r x records h,
      )
      refl

pub IsKeyed-write_record :
    (r : RegistryRecord) (records : List RegistryRecord)
    → IsKeyed records
    → IsKeyed (write_record r records)
unfolding write_record
IsKeyed-write_record r [] k = tt
IsKeyed-write_record r (x ∷ records) k = elim (Bool-cases (is_record r.record_id r.kind x)) [
  | inl t ↦ rw (t) (has_key_same r x records t ∙ k.0, k.1)
  | inr f ↦
      rw (f) (
        has_key-write_record r x.record_id x.kind records ∙ k.0,
        IsKeyed-write_record r records k.1,
      )
]

pub length-write_record :
    (r : RegistryRecord) (records : List RegistryRecord)
    → length (write_record r records) ≡ length records
unfolding write_record
length-write_record r [] = refl
length-write_record r (x ∷ records) = ground (arith, length-write_record r records)

has_key-append :
    (r : RegistryRecord) (id : String) (kind : RegistryKind) (records : List RegistryRecord)
    → has_key id kind (records ++ (r ∷ [])) ≡ (has_key id kind records || is_record id kind r)
has_key-append r id kind [] = ground arith
has_key-append r id kind (x ∷ records) = ground (arith, has_key-append r id kind records)

pub find_record-has_key :
    (id : String) (kind : RegistryKind) (records : List RegistryRecord)
    → find_record id kind records ≡ none
    → has_key id kind records ≡ false
unfolding find_record
find_record-has_key id kind [] h = refl
find_record-has_key id kind (x ∷ records) h = elim (Bool-cases (is_record id kind x)) [
  | inl t ↦ absurd (ground (arith, h, t))
  | inr f ↦ rw (f) (find_record-has_key id kind records (rw (f) at h))
]

pub IsKeyed-append :
    (r : RegistryRecord) (records : List RegistryRecord)
    → has_key r.record_id r.kind records ≡ false
    → IsKeyed records
    → IsKeyed (records ++ (r ∷ []))
IsKeyed-append r [] h k = (refl, tt)
IsKeyed-append r (x ∷ records) h k = (
  ground (arith, h, k.0, is_record_sym r x, has_key-append r x.record_id x.kind records),
  IsKeyed-append r records (ground (arith, h)) k.1,
)

aged_key :
    (now_ms : ℕ) (r : RegistryRecord)
    → ((aged now_ms r).record_id ≡ r.record_id) × ((aged now_ms r).kind ≡ r.kind)
aged_key now_ms r =
    let late =
      same_state r.state RegistryState.active
      && is_leased r
      && ltb r.lease_ttl_ms (age_ms now_ms r) in
    elim (Bool-cases late) [ inl t ↦ rw (t) (refl, refl) | inr f ↦ rw (f) (refl, refl) ]

is_record-aged :
    (now_ms : ℕ) (id : String) (kind : RegistryKind) (r : RegistryRecord)
    → is_record id kind (aged now_ms r) ≡ is_record id kind r
unfolding is_record
is_record-aged now_ms id kind r = let (same_id, same) = aged_key now_ms r in rw (same_id, same) refl

has_key-aged :
    (now_ms : ℕ) (id : String) (kind : RegistryKind) (records : List RegistryRecord)
    → has_key id kind (map (aged now_ms) records) ≡ has_key id kind records
has_key-aged now_ms id kind [] = refl
has_key-aged now_ms id kind (r ∷ records) =
    rw (is_record-aged now_ms id kind r, has_key-aged now_ms id kind records) refl

pub IsKeyed-aged :
    (now_ms : ℕ) (records : List RegistryRecord)
    → IsKeyed records
    → IsKeyed (map (aged now_ms) records)
IsKeyed-aged now_ms [] k = tt
IsKeyed-aged now_ms (r ∷ records) k =
    let (same_id, same) = aged_key now_ms r in
    (
      rw (same_id, same) (has_key-aged now_ms r.record_id r.kind records ∙ k.0),
      IsKeyed-aged now_ms records k.1,
    )

pub length-aged :
    (now_ms : ℕ) (records : List RegistryRecord)
    → length (map (aged now_ms) records) ≡ length records
length-aged now_ms [] = refl
length-aged now_ms (r ∷ records) = ap suc (length-aged now_ms records)
