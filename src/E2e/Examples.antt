-- ===== src/E2e/Examples.antt =====
-- Tests of the end-to-end protection, and its theorems at concrete inputs.
use open_autosar.Base.{ℕ, ◌≡◌, refl, true, false, List, [], ◌∷◌, some, arith, from_value}
use open_autosar.E2e.{
  Profile, CheckStatus, FaultInjectionMode, FrameHeader, ProfileConfig, ReceiverState,
}
use open_autosar.E2e.Frame.{
  profile_from_wire, profile_wire_value, serialize_frame_with_crc, parse_fields,
  parse_protected_frame,
}
use open_autosar.E2e.Crc.{calculate_crc32, crc_material}
use open_autosar.E2e.Config.{max_counter_value, counter_delta, validate_profile_config}
use open_autosar.E2e.Check.{make_checked, check_sequence, check_state, check_parsed, check_payload}
use open_autosar.E2e.RoundTrip.{InRange, parse_protected_frame-serialize}
use open_autosar.E2e.Channel.{transmit, Sendable, sealed_header}
use open_autosar.E2e.Faults.{transmit_damaged}
use open_autosar.E2e.Stream.{
  stream, accepted_payloads, stream_accepted, redeliver, transmit_redelivered,
}
use open_autosar.E2e.Acceptance.{Acceptable, check_payload_accepted}

abbrev config : ProfileConfig
config = record {
  profile = Profile.profile01;
  data_id = 4097;
  counter_bits = 4;
  max_delta_counter = 2;
  timeout_ms = 100;
  max_repetitions = 1;
  trace = record {
    service_instance = "/services/speed";
    event_name = "Speed";
    source_model_path = "model/vehicle.arxml";
    source_model_pointer = "/e2e/speed";
    deployment_ref = "";
  };
}

abbrev payload : List ℕ
payload = 1 ∷ 2 ∷ 3 ∷ []

valid : validate_profile_config config ≡ from_value true
unfolding validate_profile_config max_counter_value
valid = refl

sendable : Sendable config payload 15 1000
unfolding max_counter_value
sendable = record {
  valid = valid;
  data_id = omega arith;
  size = omega arith;
  counter = omega arith;
  timestamp = omega arith;
}

abbrev receiver : ReceiverState
receiver = record {
  initialized = true;
  last_counter = 14;
  last_timestamp_ms = 900;
  repetition_count = 0;
}

abbrev header : FrameHeader
header = record {
  profile = Profile.profile05;
  data_id = 4097;
  counter = 3;
  timestamp_ms = 5000000000;
  payload_length = 3;
  crc32 = 0xDEADBEEF;
}

header-InRange : InRange header
header-InRange = record {
  data_id = omega arith;
  counter = omega arith;
  timestamp = omega arith;
  length = omega arith;
  crc = omega arith;
}

parse_protected_frame-serialize_example :
    parse_protected_frame (serialize_frame_with_crc header payload)
    ≡ record { status = CheckStatus.ok; header = header; payload = payload }
parse_protected_frame-serialize_example =
    parse_protected_frame-serialize header payload header-InRange refl

abbrev sent : FrameHeader
sent = sealed_header config payload 15 1000 FaultInjectionMode.none

transmit_damaged_example :
    (h : FrameHeader) × (transmit config payload 15 1000 FaultInjectionMode.corrupt_crc 1100
        (some receiver)
      ≡ (some receiver, from_value (make_checked config CheckStatus.crc_mismatch false h [])))
transmit_damaged_example =
    transmit_damaged config payload 15 1000 1100 (some receiver) FaultInjectionMode.corrupt_crc
      sendable refl

stream_accepted_example :
    accepted_payloads (stream config 1000 1100 (payload ∷ [] ∷ payload ∷ []) 14 (some receiver))
    ≡ payload ∷ [] ∷ payload ∷ []
unfolding max_counter_value
stream_accepted_example =
    stream_accepted config 1000 1100 (payload ∷ [] ∷ payload ∷ []) 14 (some receiver) valid
      (omega arith) (omega arith) (omega arith) (omega arith, (omega arith, (omega arith, tt)))
      (omega arith) refl

transmit_redelivered_example :
    (transmit config payload 15 1000 FaultInjectionMode.none 1100
      (redeliver config payload 15 1000 1100 2 (some receiver))).1
    ≡ from_value (make_checked config CheckStatus.repeated false sent payload)
unfolding counter_delta max_counter_value
transmit_redelivered_example =
    transmit_redelivered config payload 15 1000 1100 1 receiver sendable (omega arith) refl
      (omega arith)

-- The frame of a sent payload, and what the receiver makes of it.
abbrev frame : List ℕ
frame = serialize_frame_with_crc sent payload

accepted_result :
    (check_payload config frame 1100 (some receiver)).1
    ≡ from_value (make_checked config CheckStatus.ok true sent payload)
unfolding check_payload check_parsed check_state check_sequence counter_delta max_counter_value
    validate_profile_config parse_protected_frame parse_fields profile_from_wire profile_wire_value
    serialize_frame_with_crc calculate_crc32 crc_material
accepted_result = refl

rejected_result :
    (check_payload config frame 1101 (some receiver)).1
    ≡ from_value (make_checked config CheckStatus.timeout false sent payload)
unfolding check_payload check_parsed check_state check_sequence counter_delta max_counter_value
    validate_profile_config parse_protected_frame parse_fields profile_from_wire profile_wire_value
    serialize_frame_with_crc calculate_crc32 crc_material
rejected_result = refl

check_payload_accepted_example :
    ((parse_protected_frame frame).status ≡ CheckStatus.ok)
    × (sent ≡ (parse_protected_frame frame).header)
    × (payload ≡ (parse_protected_frame frame).payload)
    × Acceptable config (parse_protected_frame frame) 1100 (some receiver)
check_payload_accepted_example =
    check_payload_accepted config frame 1100 (some receiver)
      (make_checked config CheckStatus.ok true sent payload) accepted_result refl
