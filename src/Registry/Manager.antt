-- ===== src/Registry/Manager.antt =====
-- registry_manager.cpp: the operations of `RegistryManager`. Each returns the manager after the call.
use open_autosar.Base.{
  ℕ, ◌+◌, ◌-◌, leb, ltb, Bool, false, not, ◌&&◌, String, str_eq, text_less, List, [], ◌∷◌, ◌++◌,
  map, length, find_if, Option, none, some, sort_by, u32, ◌==◌, if◌then◌else◌, Result, from_value,
  from_error,
}
use open_autosar.Registry.{
  RegistryKind, same_kind, kind_text, RegistryState, same_state, RegistryRecord, RegistryPolicy,
  RegistryQuery, RegistrySnapshot, RegistryManager,
}
use open_autosar.Registry.Validation.{make_error, matches_query, is_leased, validate_record}

abbrev pub new : RegistryPolicy → RegistryManager
new p = record { policy = p; records = []; rejected_updates = 0 }

unfoldable pub is_record : String → RegistryKind → RegistryRecord → Bool
is_record id kind r = str_eq r.record_id id && same_kind r.kind kind

-- `FindIndex`, and the read of the record there.
unfoldable pub find_record : String → RegistryKind → List RegistryRecord → Option RegistryRecord
find_record id kind records = find_if (is_record id kind) records

-- The write of the record at the index.
unfoldable pub write_record : RegistryRecord → List RegistryRecord → List RegistryRecord
write_record r [] = []
write_record r (s ∷ records) =
    if is_record r.record_id r.kind s then r ∷ records else s ∷ write_record r records

abbrev pub reject : RegistryManager → RegistryManager
reject m = record m { rejected_updates = u32 (m.rejected_updates + 1) }

abbrev pub with_lease : RegistryPolicy → RegistryRecord → RegistryRecord
with_lease policy r =
    if r.lease_ttl_ms == 0 then record r { lease_ttl_ms = policy.default_lease_ttl_ms } else r

abbrev pub conflicts : RegistryRecord → Option RegistryRecord → Bool
conflicts r none = false
conflicts r (some existing) =
    same_state existing.state RegistryState.active
    && same_state r.state RegistryState.active
    && not (str_eq existing.owner r.owner)

unfoldable pub has_conflicting_active_record : RegistryManager → RegistryRecord → Bool
has_conflicting_active_record m r = conflicts r (find_record r.record_id r.kind m.records)

-- The end of `Register`, with the record that is there already.
unfoldable pub store_record :
    RegistryManager
    → RegistryRecord
    → Option RegistryRecord
    → RegistryManager × Result RegistryRecord
store_record m r (some existing) = (record m { records = write_record r m.records }, from_value r)
store_record m r none =
    if leb m.policy.max_records (length m.records)
    then (reject m, from_error (make_error "registry record budget exceeded"))
    else (record m { records = m.records ++ (r ∷ []) }, from_value r)

unfoldable pub register_leased :
    RegistryManager → RegistryRecord → RegistryManager × Result RegistryRecord
register_leased m r =
    if m.policy.reject_duplicate_active_records && has_conflicting_active_record m r
    then (reject m, from_error (make_error "registry record conflicts with active entry"))
    else store_record m r (find_record r.record_id r.kind m.records)

unfoldable pub register : RegistryManager → RegistryRecord → RegistryManager × Result RegistryRecord
register m r = elim (validate_record m.policy r) [
  | from_error e ↦ (reject m, from_error e)
  | from_value _ ↦ register_leased m (with_lease m.policy r)
]

abbrev pub moved : RegistryState → ℕ → RegistryRecord → RegistryRecord
moved state timestamp_ms r = record r { state = state; last_update_ms = timestamp_ms }

unfoldable pub update_state :
    RegistryManager
    → String
    → RegistryKind
    → RegistryState
    → ℕ
    → RegistryManager × Result RegistryRecord
update_state m id kind state timestamp_ms = elim (find_record id kind m.records) [
  | none ↦ (reject m, from_error (make_error "registry record was not found"))
  | some r ↦
      if same_state r.state RegistryState.retired && not (same_state state RegistryState.declared)
      then (reject m, from_error (make_error "retired registry record cannot be reactivated"))
      else (
        record m { records = write_record (moved state timestamp_ms r) m.records },
        from_value (moved state timestamp_ms r),
      )
]

abbrev pub retire :
    RegistryManager → String → RegistryKind → ℕ → RegistryManager × Result RegistryRecord
retire m id kind timestamp_ms = update_state m id kind RegistryState.retired timestamp_ms

abbrev pub lookup : RegistryManager → String → RegistryKind → Option RegistryRecord
lookup m id kind = find_record id kind m.records

abbrev pub record_before : RegistryRecord → RegistryRecord → Bool
record_before left right =
    if same_kind left.kind right.kind
    then text_less left.record_id right.record_id
    else text_less (kind_text left.kind) (kind_text right.kind)

unfoldable pub matching : RegistryQuery → List RegistryRecord → List RegistryRecord
matching query [] = []
matching query (r ∷ records) =
    let rest = matching query records in if matches_query r query then r ∷ rest else rest

-- The records are distinct in kind and identifier, so that the order decides between any two.
abbrev pub query_records : RegistryManager → RegistryQuery → List RegistryRecord
query_records m query = sort_by record_before (matching query m.records)

abbrev pub everything : RegistryQuery
everything = record { kind = none; state = none; owner_prefix = ""; record_prefix = "" }

unfoldable pub count_state : RegistryState → List RegistryRecord → ℕ
count_state wanted [] = 0
count_state wanted (r ∷ records) =
    let rest = count_state wanted records in
    if same_state r.state wanted then u32 (rest + 1) else rest

abbrev pub snapshot : RegistryManager → RegistrySnapshot
snapshot m = record {
  records = query_records m everything;
  active_records = count_state RegistryState.active (query_records m everything);
  stale_records = count_state RegistryState.stale (query_records m everything);
  retired_records = count_state RegistryState.retired (query_records m everything);
  rejected_updates = m.rejected_updates;
}

abbrev pub age_ms : ℕ → RegistryRecord → ℕ
age_ms now_ms r = if leb r.last_update_ms now_ms then now_ms - r.last_update_ms else 0

abbrev pub aged : ℕ → RegistryRecord → RegistryRecord
aged now_ms r =
    if same_state r.state RegistryState.active
      && is_leased r
      && ltb r.lease_ttl_ms (age_ms now_ms r)
    then moved RegistryState.stale now_ms r
    else r

unfoldable pub mark_stale : RegistryManager → ℕ → RegistryManager
mark_stale m now_ms = record m { records = map (aged now_ms) m.records }
