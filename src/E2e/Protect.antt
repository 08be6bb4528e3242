-- ===== src/E2e/Protect.antt =====
-- e2e_protection.cpp: `ProtectPayload`.
use Prim.Native.Nat.{bit_xor}
use open_autosar.Base.{
  ℕ, ◌+◌, ◌-◌, ◌==◌, ltb, List, length, get_or, set, pop_back, u32, u32_mod, if◌then◌else◌, Result,
  from_value, from_error,
}
use open_autosar.E2e.{
  CheckStatus, FaultInjectionMode, ProfileConfig, FrameHeader, ProtectedPayload, header_size,
}
use open_autosar.E2e.Frame.{serialize_frame_with_crc}
use open_autosar.E2e.Crc.{calculate_crc32, crc_material}
use open_autosar.E2e.Config.{make_error, max_counter_value, validate_profile_config}

abbrev pub effective_data_id : ProfileConfig → FaultInjectionMode → ℕ
effective_data_id config FaultInjectionMode.wrong_data_id = bit_xor config.data_id 1
effective_data_id config _ = config.data_id

abbrev pub effective_counter : ProfileConfig → ℕ → FaultInjectionMode → ℕ
effective_counter config counter FaultInjectionMode.repeat_counter =
    if counter == 0 then u32 (max_counter_value config.counter_bits) else counter - 1
effective_counter config counter _ = counter

abbrev pub effective_timestamp : ProfileConfig → ℕ → FaultInjectionMode → ℕ
effective_timestamp config timestamp_ms FaultInjectionMode.stale_timestamp =
    if ltb (config.timeout_ms + 1) timestamp_ms then timestamp_ms - (config.timeout_ms + 1) else 0
effective_timestamp config timestamp_ms _ = timestamp_ms

-- The header before the checksum is known.
abbrev pub new_header : ProfileConfig → List ℕ → ℕ → ℕ → FaultInjectionMode → FrameHeader
new_header config payload counter timestamp_ms fault = record {
  profile = config.profile;
  data_id = effective_data_id config fault;
  counter = effective_counter config counter fault;
  timestamp_ms = effective_timestamp config timestamp_ms fault;
  payload_length = u32 (length payload);
  crc32 = 0;
}

abbrev pub with_crc : FrameHeader → List ℕ → FrameHeader
with_crc header payload = record header { crc32 = calculate_crc32 (crc_material header payload) }

abbrev pub damage_frame : FaultInjectionMode → List ℕ → List ℕ
damage_frame FaultInjectionMode.corrupt_crc frame = set frame 31 (bit_xor (get_or frame 31 0) 1)
damage_frame FaultInjectionMode.truncate_payload frame =
    if ltb header_size (length frame) then pop_back frame else frame
damage_frame _ frame = frame

abbrev pub protect_status : FaultInjectionMode → CheckStatus
protect_status FaultInjectionMode.none = CheckStatus.ok
protect_status _ = CheckStatus.fault_injected

unfoldable pub protect_payload :
    ProfileConfig → List ℕ → ℕ → ℕ → FaultInjectionMode → Result ProtectedPayload
protect_payload config payload counter timestamp_ms fault = elim (validate_profile_config config) [
  | from_error e ↦ from_error e
  | from_value _ ↦
      if ltb (u32_mod - 1) (length payload)
      then from_error (make_error "E2E payload is too large")
      else if ltb (max_counter_value config.counter_bits) counter
      then from_error (make_error "E2E counter is out of range")
      else let header = with_crc (new_header config payload counter timestamp_ms fault) payload in
        from_value (record {
          status = protect_status fault;
          header = header;
          frame = damage_frame fault (serialize_frame_with_crc header payload);
          trace = config.trace;
        })
]
