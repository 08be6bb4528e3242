-- ===== src/Registry/Examples.antt =====
-- The theorems on the registry at concrete inputs.
use open_autosar.Base.{◌≡◌, refl, true, [], ◌∷◌, some, from_value}
use open_autosar.Registry.{RegistryKind, RegistryState, RegistryRecord, RegistryPolicy}
use open_autosar.Registry.Validation.{validate_record}
use open_autosar.Registry.Manager.{
  new, register, register_leased, has_conflicting_active_record, store_record, find_record, lookup,
  is_record,
}
use open_autosar.Registry.Lookups.{lookup-register}
use open_autosar.Registry.Records.{registers, updates, marks_stale, run, Ordered}
use open_autosar.Registry.Histories.{run-Ordered}
use open_autosar.Firewall.Tokens.{is_safe_token}

abbrev policy : RegistryPolicy
policy = record {
  max_records = 2;
  require_source_model = true;
  reject_duplicate_active_records = true;
  default_lease_ttl_ms = 1000;
}

abbrev radar : RegistryRecord
radar = record {
  record_id = "svc/radar";
  kind = RegistryKind.service;
  state = RegistryState.active;
  version = "1.0";
  owner = "adas";
  endpoint = "";
  source_model = "model.arxml";
  last_update_ms = 5;
  lease_ttl_ms = 100;
}

run-Ordered_example : Ordered (
    run (new policy) (
      registers radar
      ∷ registers (record radar { kind = RegistryKind.process })
      ∷ registers (record radar { owner = "other" })
      ∷ marks_stale 1000
      ∷ updates "svc/radar" RegistryKind.service RegistryState.retired 1001
      ∷ []))
run-Ordered_example = run-Ordered policy (
    registers radar
    ∷ registers (record radar { kind = RegistryKind.process })
    ∷ registers (record radar { owner = "other" })
    ∷ marks_stale 1000
    ∷ updates "svc/radar" RegistryKind.service RegistryState.retired 1001
    ∷ [])

registered : (register (new policy) radar).1 ≡ from_value radar
unfolding register validate_record is_safe_token register_leased has_conflicting_active_record
    store_record find_record
registered = refl

lookup-register_example :
    lookup (register (new policy) radar).0 "svc/radar" RegistryKind.service ≡ some radar
unfolding is_record
lookup-register_example =
    lookup-register (new policy) radar radar "svc/radar" RegistryKind.service registered
