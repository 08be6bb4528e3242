-- ===== src/Idsm/Calls.antt =====
-- Calls of `IdsmManager` (idsm_manager.cpp).
use open_autosar.Base.{List, [], ◌∷◌}
use open_autosar.Access.{SecurityEvent}
use open_autosar.Idsm.{IdsmEvent, IdsmManager}
use open_autosar.Idsm.Recording.{record_event, record_security_event, drain_forwarding_batch}

pub data Call : Type 0 where
  records_event : IdsmEvent → Call
  records_security_event : SecurityEvent → Call
  drains : Call

unfoldable pub step : IdsmManager → Call → IdsmManager
step m (records_event event) = (record_event m event).0
step m (records_security_event event) = (record_security_event m event).0
step m drains = (drain_forwarding_batch m).0

unfoldable pub run : IdsmManager → List Call → IdsmManager
run m [] = m
run m (call ∷ calls) = run (step m call) calls
