-- ===== src/E2e.antt =====
-- bsw/communication/e2e-protection: the data of e2e_protection.h.
pub mod Frame
pub mod Crc
pub mod Config
pub mod Protect
pub mod Check
pub mod RoundTrip
pub mod Examples
pub mod Acceptance
pub mod Stream
pub mod Counters
pub mod Faults
pub mod Detection
pub mod Channel
pub mod Xor
use open_autosar.Base.{ℕ, ◌==◌, Bool, String, List}

abbrev pub header_size : ℕ
header_size = 32

abbrev pub frame_version : ℕ
frame_version = 1

pub data Profile : Type 0 where
  profile01 profile05 : Profile

pub data CheckStatus : Type 0 where
  ok fault_injected repeated wrong_sequence timeout : CheckStatus
  wrong_profile wrong_data_id crc_mismatch malformed configuration_error : CheckStatus

pub data FaultInjectionMode : Type 0 where
  none corrupt_crc wrong_data_id repeat_counter stale_timestamp truncate_payload :
      FaultInjectionMode

pub record DeploymentTrace : Type 0 where
  pub service_instance : String
  pub event_name : String
  pub source_model_path : String
  pub source_model_pointer : String
  pub deployment_ref : String

pub record ProfileConfig : Type 0 where
  pub profile : Profile
  pub data_id : ℕ  -- uint32
  pub counter_bits : ℕ  -- uint8
  pub max_delta_counter : ℕ  -- uint32
  pub timeout_ms : ℕ  -- uint32
  pub max_repetitions : ℕ  -- uint32
  pub trace : DeploymentTrace

pub record FrameHeader : Type 0 where
  pub profile : Profile
  pub data_id : ℕ  -- uint32
  pub counter : ℕ  -- uint32
  pub timestamp_ms : ℕ  -- uint64
  pub payload_length : ℕ  -- uint32
  pub crc32 : ℕ  -- uint32

-- Bytes are numbers below 256.
pub record ProtectedPayload : Type 0 where
  pub status : CheckStatus
  pub header : FrameHeader
  pub frame : List ℕ
  pub trace : DeploymentTrace

pub record ReceiverState : Type 0 where
  pub initialized : Bool
  pub last_counter : ℕ  -- uint32
  pub last_timestamp_ms : ℕ  -- uint64
  pub repetition_count : ℕ  -- uint32

pub record CheckedPayload : Type 0 where
  pub status : CheckStatus
  pub accepted : Bool
  pub header : FrameHeader
  pub payload : List ℕ
  pub trace : DeploymentTrace

abbrev pub profile_code : Profile → ℕ
profile_code profile01 = 0
profile_code profile05 = 1

abbrev pub same_profile : Profile → Profile → Bool
same_profile a b = profile_code a == profile_code b
