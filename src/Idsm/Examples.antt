-- ===== src/Idsm/Examples.antt =====
-- The theorems on intrusion detection at concrete inputs.
use open_autosar.Base.{◌≡◌, refl, true, [], ◌∷◌, arith}
use open_autosar.Access.{SecuritySeverity, Operation}
use open_autosar.Idsm.{EventSource, PrivacyMode, IdsmEvent, IdsmPolicy}
use open_autosar.Idsm.Recording.{new, should_forward}
use open_autosar.Idsm.Calls.{records_event, drains, run}
use open_autosar.Idsm.Privacy.{Discreet, run-Discreet}
use open_autosar.Idsm.Forwarding.{repeat, with_count, repeat_forwarded}

abbrev policy : IdsmPolicy
policy = record {
  max_records = 2;
  aggregation_window_ms = 1000;
  rate_limit_count = 10;
  rate_limit_window_ms = 1000;
  forwarding_threshold = SecuritySeverity.warning;
  backend_forwarding_enabled = true;
  privacy_mode = PrivacyMode.redact_principal;
}

abbrev event : IdsmEvent
event = record {
  source = EventSource.firewall;
  category = "rule-denied";
  severity = SecuritySeverity.critical;
  principal_id = "driver";
  resource_id = "eth0";
  operation = Operation.install_firewall_rule;
  detail = "port scan";
  count = 1;
  timestamp_ms = 10;
}

run-Discreet_example : Discreet (
    run (new policy) (
      records_event event
      ∷ records_event (record event { detail = "flood" })
      ∷ records_event (record event { detail = "probe" })
      ∷ drains
      ∷ records_event event
      ∷ []))
run-Discreet_example = run-Discreet policy (
    records_event event
    ∷ records_event (record event { detail = "flood" })
    ∷ records_event (record event { detail = "probe" })
    ∷ drains
    ∷ records_event event
    ∷ [])

forwarded : should_forward policy event ≡ true
unfolding should_forward
forwarded = refl

-- Three events, of which six are said to be forwarded.
repeat_forwarded_example : (repeat 3 (new policy) (with_count event 1)).forwarded_events ≡ 6
repeat_forwarded_example =
    repeat_forwarded policy event forwarded refl refl (omega arith) 3 (omega arith) (omega arith)
      (omega arith)
