-- ===== src/SomeIp/RoundTrip.antt =====
-- A message that is written is read back (message.cpp).
use open_autosar.Base.{
  ℕ, ◌+◌, ◌<◌, ◌≡◌, refl, true, List, length, get_or, u32_mod, arith, from_value,
}
use open_autosar.SomeIp.{
  header_size, length_base, MessageType, message_type_value, ReturnCode, return_code_value, Message,
}
use open_autosar.SomeIp.Bytes.{read_u32, u16_lem, u32_lem}
use open_autosar.SomeIp.Messages.{
  is_known_message_type, to_message_type, is_known_return_code, to_return_code, message_bytes,
  serialize_message, read_message, deserialize_message,
}

-- The fields fit their types.
pub record InRange (m : Message) : Type 0 where
  pub service_id : m.header.message_id.service_id < 65536
  pub method_id : m.header.message_id.method_id < 65536
  pub client_id : m.header.request_id.client_id < 65536
  pub session_id : m.header.request_id.session_id < 65536

known_message_type : (t : MessageType) → is_known_message_type (message_type_value t) ≡ true
unfolding is_known_message_type
known_message_type MessageType.request = refl
known_message_type MessageType.request_no_return = refl
known_message_type MessageType.notification = refl
known_message_type MessageType.response = refl
known_message_type MessageType.error = refl

to_message_type_value : (t : MessageType) → to_message_type (message_type_value t) ≡ t
unfolding to_message_type
to_message_type_value MessageType.request = refl
to_message_type_value MessageType.request_no_return = refl
to_message_type_value MessageType.notification = refl
to_message_type_value MessageType.response = refl
to_message_type_value MessageType.error = refl

known_return_code : (r : ReturnCode) → is_known_return_code (return_code_value r) ≡ true
unfolding is_known_return_code
known_return_code ReturnCode.ok = refl
known_return_code ReturnCode.not_ok = refl
known_return_code ReturnCode.unknown_service = refl
known_return_code ReturnCode.unknown_method = refl
known_return_code ReturnCode.malformed_message = refl

to_return_code_value : (r : ReturnCode) → to_return_code (return_code_value r) ≡ r
unfolding to_return_code
to_return_code_value ReturnCode.ok = refl
to_return_code_value ReturnCode.not_ok = refl
to_return_code_value ReturnCode.unknown_service = refl
to_return_code_value ReturnCode.unknown_method = refl
to_return_code_value ReturnCode.malformed_message = refl

read_message-message_bytes : (m : Message) → InRange m → read_message (message_bytes m) ≡ m
unfolding message_bytes
read_message-message_bytes m r = λ i. record {
  header = record {
    message_id = record {
      service_id = u16_lem m.header.message_id.service_id r.service_id i;
      method_id = u16_lem m.header.message_id.method_id r.method_id i;
    };
    request_id = record {
      client_id = u16_lem m.header.request_id.client_id r.client_id i;
      session_id = u16_lem m.header.request_id.session_id r.session_id i;
    };
    protocol_version = m.header.protocol_version;
    interface_version = m.header.interface_version;
    message_type = to_message_type_value m.header.message_type i;
    return_code = to_return_code_value m.header.return_code i;
  };
  payload = m.payload;
}

length_field_lem :
    (m : Message)
    → length_base + length m.payload < u32_mod
    → read_u32 (message_bytes m) 4 ≡ length_base + length m.payload
unfolding message_bytes
length_field_lem m h = u32_lem (length_base + length m.payload) h

length-message_bytes : (m : Message) → length (message_bytes m) ≡ header_size + length m.payload
unfolding message_bytes
length-message_bytes m = omega arith

-- What the checks of `DeserializeMessage` see of a written message.
type_byte : (m : Message) → get_or (message_bytes m) 14 0 ≡ message_type_value m.header.message_type
unfolding message_bytes
type_byte m = refl

code_byte : (m : Message) → get_or (message_bytes m) 15 0 ≡ return_code_value m.header.return_code
unfolding message_bytes
code_byte m = refl

version_byte : (m : Message) → get_or (message_bytes m) 12 0 ≡ m.header.protocol_version
unfolding message_bytes
version_byte m = refl

pub deserialize_message-message_bytes :
    (m : Message)
    → InRange m
    → length_base + length m.payload < u32_mod
    → m.header.protocol_version ≡ 1
    → deserialize_message (message_bytes m) ≡ from_value m
unfolding deserialize_message
deserialize_message-message_bytes m r h v =
    rw
      (
        deserialize_message,
        read_message-message_bytes m r,
        length_field_lem m h,
        length-message_bytes m,
        type_byte m,
        code_byte m,
        version_byte m,
        known_message_type m.header.message_type,
        known_return_code m.header.return_code,
      )
      (ground arith)

-- A message with fields within their types that `SerializeMessage` writes is given back by
-- `DeserializeMessage`.
pub deserialize_message-serialize_message :
    (m : Message) (bytes : List ℕ)
    → InRange m
    → serialize_message m ≡ from_value bytes
    → deserialize_message bytes ≡ from_value m
unfolding serialize_message
deserialize_message-serialize_message m bytes r h =
    ground (arith, deserialize_message-message_bytes m r)
