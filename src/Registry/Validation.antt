-- ===== src/Registry/Validation.antt =====
-- registry_manager.cpp: `ValidateRecord` and the tests on records. `IsSafeToken` is word for word that
-- of the firewall.
use open_autosar.Base.{
  ◌==◌, ltb, Bool, true, false, not, ◌&&◌, ◌||◌, String, is_empty, starts_with, Option, none, some,
  if◌then◌else◌, ErrorCode, Result, from_value, from_error,
}
use open_autosar.Firewall.Tokens.{is_safe_token}
use open_autosar.Registry.{
  RegistryKind, same_kind, RegistryState, same_state, RegistryRecord, RegistryPolicy, RegistryQuery,
}

abbrev pub make_error : String → ErrorCode
make_error message = record { domain = "registry"; message = message }

abbrev pub prefix_matches : String → String → Bool
prefix_matches value prefix = is_empty prefix || starts_with value prefix

abbrev pub kind_wanted : Option RegistryKind → RegistryKind → Bool
kind_wanted none kind = true
kind_wanted (some wanted) kind = same_kind kind wanted

abbrev pub state_wanted : Option RegistryState → RegistryState → Bool
state_wanted none _ = true
state_wanted (some wanted) given = same_state given wanted

unfoldable pub matches_query : RegistryRecord → RegistryQuery → Bool
matches_query r query =
    if not (kind_wanted query.kind r.kind)
    then false
    else if not (state_wanted query.state r.state)
    then false
    else prefix_matches r.owner query.owner_prefix && prefix_matches r.record_id query.record_prefix

abbrev pub is_leased : RegistryRecord → Bool
is_leased r = ltb 0 r.lease_ttl_ms

unfoldable pub validate_record : RegistryPolicy → RegistryRecord → Result Bool
validate_record policy r =
    if policy.max_records == 0
    then from_error (make_error "registry record budget is zero")
    else if not (is_safe_token r.record_id)
        || not (is_safe_token r.version)
        || not (is_safe_token r.owner)
    then from_error (make_error "registry record identity is invalid")
    else if not (is_empty r.endpoint) && not (is_safe_token r.endpoint)
    then from_error (make_error "registry record endpoint is invalid")
    else if policy.require_source_model && is_empty r.source_model
    then from_error (make_error "registry source model is required")
    else if not (is_empty r.source_model) && not (is_safe_token r.source_model)
    then from_error (make_error "registry source model token is invalid")
    else from_value true
