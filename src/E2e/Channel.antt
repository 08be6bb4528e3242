-- ===== src/E2e/Channel.antt =====
-- A sender and a receiver (e2e_protection.cpp): `CheckPayload` on the frame of `ProtectPayload`.
use open_autosar.Base.{
  ℕ, ◌<◌, ◌≤◌, ◌≡◌, refl, Bool, true, List, length, Option, u32_mod, u64_mod, arith, Result,
  from_value, from_error,
}
use open_autosar.E2e.{
  CheckStatus, FaultInjectionMode, FrameHeader, ProfileConfig, ReceiverState, CheckedPayload,
}
use open_autosar.E2e.Frame.{serialize_frame_with_crc}
use open_autosar.E2e.Crc.{calculate_crc32-lt}
use open_autosar.E2e.Config.{max_counter_value, is_supported_counter_width, validate_profile_config}
use open_autosar.E2e.Protect.{
  effective_data_id, effective_counter, effective_timestamp, new_header, with_crc, damage_frame,
  protect_status, protect_payload,
}
use open_autosar.E2e.Check.{check_parsed, check_payload}
use open_autosar.E2e.RoundTrip.{InRange, parse_protected_frame-serialize}
use open_autosar.E2e.Xor.{xor_one}

-- A payload that is protected and then checked, with one configuration.
unfoldable pub transmit :
    ProfileConfig
    → List ℕ
    → ℕ
    → ℕ
    → FaultInjectionMode
    → ℕ
    → Option ReceiverState
    → Option ReceiverState × Result CheckedPayload
transmit config payload counter timestamp_ms fault now_ms state =
    elim (protect_payload config payload counter timestamp_ms fault) [
      | from_error e ↦ (state, from_error e)
      | from_value q ↦ check_payload config q.frame now_ms state
    ]

-- What `ProtectPayload` asks for, in numbers of the fields' types.
pub record Sendable (c : ProfileConfig) (payload : List ℕ) (n t : ℕ) : Type 0 where
  pub valid : validate_profile_config c ≡ from_value true
  pub data_id : c.data_id < u32_mod
  pub size : length payload < u32_mod
  pub counter : n ≤ max_counter_value c.counter_bits
  pub timestamp : t < u64_mod

abbrev pub sealed_header : ProfileConfig → List ℕ → ℕ → ℕ → FaultInjectionMode → FrameHeader
sealed_header c payload counter timestamp_ms fault =
    with_crc (new_header c payload counter timestamp_ms fault) payload

pub supported_width :
    (c : ProfileConfig) (b : Bool)
    → validate_profile_config c ≡ from_value b
    → is_supported_counter_width c.counter_bits ≡ true
unfolding validate_profile_config
supported_width c b h = ground arith

pub max_counter_value-lt :
    (bits : ℕ) → is_supported_counter_width bits ≡ true → max_counter_value bits < u32_mod
unfolding max_counter_value
max_counter_value-lt bits h = ground arith

effective_data_id-lt :
    (c : ProfileConfig) (fault : FaultInjectionMode)
    → c.data_id < u32_mod
    → effective_data_id c fault < u32_mod
effective_data_id-lt c FaultInjectionMode.wrong_data_id h = omega (arith, xor_one c.data_id)
effective_data_id-lt c _ h = h

effective_counter-lt :
    (c : ProfileConfig) (n : ℕ) (fault : FaultInjectionMode)
    → n < u32_mod
    → effective_counter c n fault < u32_mod
effective_counter-lt c n FaultInjectionMode.repeat_counter h = ground arith
effective_counter-lt c n _ h = h

effective_timestamp-le :
    (c : ProfileConfig) (t : ℕ) (fault : FaultInjectionMode) → effective_timestamp c t fault ≤ t
effective_timestamp-le c t FaultInjectionMode.stale_timestamp = ground arith
effective_timestamp-le c t _ = omega arith

module _ (c : ProfileConfig) (payload : List ℕ) (counter timestamp_ms : ℕ) where
  protect_payload_lem :
      (fault : FaultInjectionMode)
      → Sendable c payload counter timestamp_ms
      → protect_payload c payload counter timestamp_ms fault
        ≡ from_value (record {
          status = protect_status fault;
          header = sealed_header c payload counter timestamp_ms fault;
          frame = damage_frame fault (
              serialize_frame_with_crc
                (sealed_header c payload counter timestamp_ms fault)
                payload);
          trace = c.trace;
        })
  unfolding protect_payload
  protect_payload_lem fault s = rw (protect_payload, s.valid) (ground (arith, s.size, s.counter))

  pub sealed_header-InRange :
      (fault : FaultInjectionMode)
      → Sendable c payload counter timestamp_ms
      → InRange (sealed_header c payload counter timestamp_ms fault)
  sealed_header-InRange fault s = record {
    data_id = effective_data_id-lt c fault s.data_id;
    counter = effective_counter-lt c counter fault (
        omega
          (arith, s.counter, max_counter_value-lt c.counter_bits (supported_width c true s.valid)));
    timestamp = omega (arith, effective_timestamp-le c timestamp_ms fault, s.timestamp);
    length = omega arith;
    crc = calculate_crc32-lt _;
  }

  pub transmit_frame :
      (fault : FaultInjectionMode) (now_ms : ℕ) (state : Option ReceiverState)
      → Sendable c payload counter timestamp_ms
      → transmit c payload counter timestamp_ms fault now_ms state
        ≡ check_payload c
            (damage_frame fault (
              serialize_frame_with_crc
                (sealed_header c payload counter timestamp_ms fault)
                payload))
            now_ms
            state
  unfolding transmit
  transmit_frame fault now_ms state s = rw (transmit, protect_payload_lem fault s) refl

-- A written frame is judged on its header and payload.
pub check_payload-serialize :
    (c : ProfileConfig) (h : FrameHeader) (payload : List ℕ) (now_ms : ℕ)
    (state : Option ReceiverState)
    → validate_profile_config c ≡ from_value true
    → InRange h
    → h.payload_length ≡ length payload
    → check_payload c (serialize_frame_with_crc h payload) now_ms state ≡ (
        let r =
          check_parsed c
            (record { status = CheckStatus.ok; header = h; payload = payload })
            now_ms
            state in
        (r.0, from_value r.1))
unfolding check_payload
check_payload-serialize c h payload now_ms state v r e =
    rw (check_payload, v, parse_protected_frame-serialize h payload r e) refl
