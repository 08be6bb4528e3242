-- ===== src/SomeIp/Discovery.antt =====
-- service_discovery.cpp: service discovery messages, written and read.
use open_autosar.Base.{
  ℕ, zero, suc, ◌+◌, ◌*◌, ◌/◌, ◌%◌, ◌==◌, ltb, Bool, not, ◌||◌, String, List, [], ◌∷◌, ◌++◌, length,
  is_nil, get_or, drop, u32, if◌then◌else◌, Result, from_value, from_error, ErrorCode,
}
use open_autosar.SomeIp.{
  MessageType, message_type_value, ReturnCode, MessageId, same_message_id, RequestId, Message,
}
use open_autosar.SomeIp.Bytes.{u16_bytes, u24_bytes, u32_bytes, read_u16, read_u24, read_u32}

abbrev pub make_error : String → ErrorCode
make_error message = record { domain = "someip-sd"; message = message }

abbrev pub service_discovery_message_id : MessageId
service_discovery_message_id = record { service_id = 0xFFFF; method_id = 0x8100 }

abbrev pub service_discovery_interface_version : ℕ
service_discovery_interface_version = 1

abbrev pub sd_header_size : ℕ
sd_header_size = 8

abbrev pub sd_entry_size : ℕ
sd_entry_size = 16

pub data EntryType : Type 0 where
  find_service offer_service subscribe_eventgroup subscribe_eventgroup_ack : EntryType

abbrev pub entry_type_value : EntryType → ℕ
entry_type_value find_service = 0
entry_type_value offer_service = 1
entry_type_value subscribe_eventgroup = 6
entry_type_value subscribe_eventgroup_ack = 7

pub record ServiceEntry : Type 0 where
  pub type : EntryType
  pub service_id : ℕ  -- uint16
  pub instance_id : ℕ  -- uint16
  pub major_version : ℕ  -- uint8
  pub ttl : ℕ  -- uint32
  pub minor_version : ℕ  -- uint32
  pub eventgroup_id : ℕ  -- uint16

pub record ServiceDiscoveryMessage : Type 0 where
  pub reboot_session : ℕ  -- uint32
  pub entries : List ServiceEntry

unfoldable pub is_known_entry_type : ℕ → Bool
is_known_entry_type v =
    v == entry_type_value find_service
    || v == entry_type_value offer_service
    || v == entry_type_value subscribe_eventgroup
    || v == entry_type_value subscribe_eventgroup_ack

-- `static_cast<EntryType>`, of a known value.
unfoldable pub to_entry_type : ℕ → EntryType
to_entry_type v =
    if v == 0
    then find_service
    else if v == 1
    then offer_service
    else if v == 6
    then subscribe_eventgroup
    else subscribe_eventgroup_ack

unfoldable pub entry_bytes : ServiceEntry → List ℕ
entry_bytes e =
    (entry_type_value e.type ∷ 0 ∷ [])
    ++ u16_bytes e.service_id
    ++ u16_bytes e.instance_id
    ++ (e.major_version ∷ [])
    ++ u24_bytes e.ttl
    ++ u32_bytes e.minor_version
    ++ u16_bytes e.eventgroup_id

-- The bytes of an entry before what the loop still writes.
abbrev pub put_entry : ServiceEntry → Result (List ℕ) → Result (List ℕ)
put_entry e (from_error x) = from_error x
put_entry e (from_value bytes) = from_value (entry_bytes e ++ bytes)

-- The loop of `SerializeServiceDiscoveryPayload`.
unfoldable pub serialize_entries : List ServiceEntry → Result (List ℕ)
serialize_entries [] = from_value []
serialize_entries (e ∷ es) =
    let rest = serialize_entries es in
    if e.service_id == 0 || e.instance_id == 0
    then from_error (make_error "service discovery entry has invalid service or instance id")
    else if e.major_version == 0
    then from_error (make_error "service discovery entry has invalid major version")
    else if ltb 0x00FFFFFF e.ttl
    then from_error (make_error "service discovery ttl exceeds 24-bit field")
    else put_entry e rest

unfoldable pub sd_header_bytes : ServiceDiscoveryMessage → List ℕ
sd_header_bytes m = u32_bytes m.reboot_session ++ u32_bytes (u32 (length m.entries * sd_entry_size))

abbrev pub put_header : ServiceDiscoveryMessage → Result (List ℕ) → Result (List ℕ)
put_header m (from_error x) = from_error x
put_header m (from_value bytes) = from_value (sd_header_bytes m ++ bytes)

unfoldable pub serialize_service_discovery_payload : ServiceDiscoveryMessage → Result (List ℕ)
serialize_service_discovery_payload m =
    if is_nil m.entries
    then from_error (make_error "service discovery message has no entries")
    else put_header m (serialize_entries m.entries)

abbrev pub read_entry : List ℕ → ServiceEntry
read_entry bytes = record {
  type = to_entry_type (get_or bytes 0 0);
  service_id = read_u16 bytes 2;
  instance_id = read_u16 bytes 4;
  major_version = get_or bytes 6 0;
  ttl = read_u24 bytes 7;
  minor_version = read_u32 bytes 10;
  eventgroup_id = read_u16 bytes 14;
}

abbrev pub add_entry : ServiceEntry → Result (List ServiceEntry) → Result (List ServiceEntry)
add_entry e (from_error x) = from_error x
add_entry e (from_value es) = from_value (e ∷ es)

-- The loop of `DeserializeServiceDiscoveryPayload`, on the entries that are left to read and the
-- payload from their offset.
unfoldable pub deserialize_entries : ℕ → List ℕ → Result (List ServiceEntry)
deserialize_entries zero bytes = from_value []
deserialize_entries (suc n) bytes =
    let rest = deserialize_entries n (drop sd_entry_size bytes) in
    if not (is_known_entry_type (get_or bytes 0 0))
    then from_error (make_error "unsupported service discovery entry type")
    else if not (get_or bytes 1 0 == 0)
    then from_error (make_error "service discovery reserved byte is non-zero")
    else add_entry (read_entry bytes) rest

abbrev pub with_session : ℕ → Result (List ServiceEntry) → Result ServiceDiscoveryMessage
with_session session (from_error x) = from_error x
with_session session (from_value es) =
    from_value (record { reboot_session = session; entries = es })

unfoldable pub deserialize_service_discovery_payload : List ℕ → Result ServiceDiscoveryMessage
deserialize_service_discovery_payload payload =
    let entries_length = read_u32 payload 4 in
    if ltb (length payload) sd_header_size
    then from_error (make_error "service discovery payload shorter than header")
    else if entries_length == 0 || not (entries_length % sd_entry_size == 0)
    then from_error (make_error "invalid service discovery entries length")
    else if not (length payload == sd_header_size + entries_length)
    then from_error (make_error "service discovery payload length mismatch")
    else with_session (read_u32 payload 0)
        (deserialize_entries (entries_length / sd_entry_size) (drop sd_header_size payload))

abbrev pub discovery_message : RequestId → List ℕ → Message
discovery_message request_id payload = record {
  header = record {
    message_id = service_discovery_message_id;
    request_id = request_id;
    protocol_version = 1;
    interface_version = service_discovery_interface_version;
    message_type = MessageType.notification;
    return_code = ReturnCode.ok;
  };
  payload = payload;
}

unfoldable pub build_service_discovery_message :
    ServiceDiscoveryMessage → RequestId → Result Message
build_service_discovery_message discovery request_id =
    elim (serialize_service_discovery_payload discovery) [
      | from_error e ↦ from_error e
      | from_value payload ↦ from_value (discovery_message request_id payload)
    ]

unfoldable pub extract_service_discovery_message : Message → Result ServiceDiscoveryMessage
extract_service_discovery_message m =
    if not (same_message_id m.header.message_id service_discovery_message_id)
    then from_error (make_error "message is not a service discovery message")
    else if not
        (message_type_value m.header.message_type == message_type_value MessageType.notification)
    then from_error (make_error "service discovery message is not a notification")
    else if not (m.header.interface_version == service_discovery_interface_version)
    then from_error (make_error "unsupported service discovery interface version")
    else deserialize_service_discovery_payload m.payload
