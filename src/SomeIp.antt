-- ===== src/SomeIp.antt =====
-- bsw/communication/someip-protocol: the data of message.h, request_correlation.h and
-- service_discovery.h.
pub mod Bytes
pub mod Messages
pub mod RoundTrip
pub mod Examples
pub mod Transfer
pub mod Stream
pub mod Delivery
pub mod Discovery
pub mod Announcement
pub mod Correlation
pub mod Completion
use open_autosar.Base.{ℕ, ◌==◌, Bool, ◌&&◌, ◌||◌, List}

abbrev pub protocol_version_1 : ℕ
protocol_version_1 = 1

abbrev pub header_size : ℕ
header_size = 16

-- The bytes of the header that the length field counts.
abbrev pub length_base : ℕ
length_base = 8

abbrev pub max_udp_payload_size : ℕ
max_udp_payload_size = 1400

pub data MessageType : Type 0 where
  request request_no_return notification response error : MessageType

-- The values of the enumerators.
abbrev pub message_type_value : MessageType → ℕ
message_type_value request = 0
message_type_value request_no_return = 1
message_type_value notification = 2
message_type_value response = 0x80
message_type_value error = 0x81

pub data ReturnCode : Type 0 where
  ok not_ok unknown_service unknown_method malformed_message : ReturnCode

abbrev pub return_code_value : ReturnCode → ℕ
return_code_value ok = 0
return_code_value not_ok = 1
return_code_value unknown_service = 2
return_code_value unknown_method = 3
return_code_value malformed_message = 9

pub record MessageId : Type 0 where
  pub service_id : ℕ  -- uint16
  pub method_id : ℕ  -- uint16

abbrev pub same_message_id : MessageId → MessageId → Bool
same_message_id a b = a.service_id == b.service_id && a.method_id == b.method_id

pub record RequestId : Type 0 where
  pub client_id : ℕ  -- uint16
  pub session_id : ℕ  -- uint16

pub record Header : Type 0 where
  pub message_id : MessageId
  pub request_id : RequestId
  pub protocol_version : ℕ  -- uint8
  pub interface_version : ℕ  -- uint8
  pub message_type : MessageType
  pub return_code : ReturnCode

-- Bytes are numbers below 256.
pub record Message : Type 0 where
  pub header : Header
  pub payload : List ℕ
