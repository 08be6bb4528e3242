-- ===== src/SomeIp/Messages.antt =====
-- message.cpp: messages as bytes, written and read.
use open_autosar.Base.{
  ℕ, ◌+◌, ◌-◌, ◌==◌, ltb, leb, Bool, not, ◌||◌, String, List, [], ◌∷◌, ◌++◌, length, get_or, drop,
  u32_mod, if◌then◌else◌, Result, from_value, from_error, ErrorCode,
}
use open_autosar.SomeIp.{
  protocol_version_1, header_size, length_base, max_udp_payload_size, MessageType,
  message_type_value, ReturnCode, return_code_value, Message,
}
use open_autosar.SomeIp.Bytes.{u16_bytes, u32_bytes, read_u16, read_u32}

abbrev pub make_error : String → ErrorCode
make_error message = record { domain = "someip-protocol"; message = message }

unfoldable pub is_known_message_type : ℕ → Bool
is_known_message_type v =
    v == message_type_value MessageType.request
    || v == message_type_value MessageType.request_no_return
    || v == message_type_value MessageType.notification
    || v == message_type_value MessageType.response
    || v == message_type_value MessageType.error

-- `static_cast<MessageType>`, of a known value.
unfoldable pub to_message_type : ℕ → MessageType
to_message_type v =
    if v == 0
    then MessageType.request
    else if v == 1
    then MessageType.request_no_return
    else if v == 2
    then MessageType.notification
    else if v == 0x80
    then MessageType.response
    else MessageType.error

unfoldable pub is_known_return_code : ℕ → Bool
is_known_return_code v =
    v == return_code_value ReturnCode.ok
    || v == return_code_value ReturnCode.not_ok
    || v == return_code_value ReturnCode.unknown_service
    || v == return_code_value ReturnCode.unknown_method
    || v == return_code_value ReturnCode.malformed_message

-- `static_cast<ReturnCode>`, of a known value.
unfoldable pub to_return_code : ℕ → ReturnCode
to_return_code v =
    if v == 0
    then ReturnCode.ok
    else if v == 1
    then ReturnCode.not_ok
    else if v == 2
    then ReturnCode.unknown_service
    else if v == 3
    then ReturnCode.unknown_method
    else ReturnCode.malformed_message

unfoldable pub fits_udp_payload : Message → Bool
fits_udp_payload m = leb (header_size + length m.payload) max_udp_payload_size

-- The bytes that `SerializeMessage` writes.
unfoldable pub message_bytes : Message → List ℕ
message_bytes m =
    u16_bytes m.header.message_id.service_id
    ++ u16_bytes m.header.message_id.method_id
    ++ u32_bytes (length_base + length m.payload)
    ++ u16_bytes m.header.request_id.client_id
    ++ u16_bytes m.header.request_id.session_id
    ++ (m.header.protocol_version
        ∷ m.header.interface_version
        ∷ message_type_value m.header.message_type
        ∷ return_code_value m.header.return_code
        ∷ [])
    ++ m.payload

unfoldable pub serialize_message : Message → Result (List ℕ)
serialize_message m =
    if not (fits_udp_payload m)
    then from_error (make_error "message exceeds configured UDP payload limit")
    else if m.header.message_id.service_id == 0
    then from_error (make_error "service id is zero")
    else if not (m.header.protocol_version == protocol_version_1)
    then from_error (make_error "unsupported protocol version")
    else if ltb (u32_mod - 1) (length_base + length m.payload)
    then from_error (make_error "message length overflows SOME/IP header")
    else from_value (message_bytes m)

-- The message that `DeserializeMessage` fills in.
abbrev pub read_message : List ℕ → Message
read_message bytes = record {
  header = record {
    message_id = record { service_id = read_u16 bytes 0; method_id = read_u16 bytes 2 };
    request_id = record { client_id = read_u16 bytes 8; session_id = read_u16 bytes 10 };
    protocol_version = get_or bytes 12 0;
    interface_version = get_or bytes 13 0;
    message_type = to_message_type (get_or bytes 14 0);
    return_code = to_return_code (get_or bytes 15 0);
  };
  payload = drop header_size bytes;
}

unfoldable pub deserialize_message : List ℕ → Result Message
deserialize_message bytes =
    let length_field = read_u32 bytes 4 in
    if ltb (length bytes) header_size
    then from_error (make_error "message shorter than header")
    else if ltb length_field length_base
    then from_error (make_error "invalid SOME/IP length field")
    else if not (length bytes == header_size + (length_field - length_base))
    then from_error (make_error "SOME/IP length mismatch")
    else if not (get_or bytes 12 0 == protocol_version_1)
    then from_error (make_error "unsupported protocol version")
    else if not (is_known_message_type (get_or bytes 14 0))
    then from_error (make_error "unsupported message type")
    else if not (is_known_return_code (get_or bytes 15 0))
    then from_error (make_error "unsupported return code")
    else from_value (read_message bytes)
