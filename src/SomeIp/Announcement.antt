-- ===== src/SomeIp/Announcement.antt =====
-- Service discovery from one node to another: written as a message, sent as bytes, read again
-- (service_discovery.cpp, message.cpp).
use open_autosar.Base.{
  ℕ, suc, ◌+◌, ◌*◌, ◌/◌, ◌^◌, ◌<◌, ◌≡◌, refl, ap, ◌∙◌, true, false, List, [], ◌∷◌, ◌++◌, length,
  is_nil, drop, All, u32, u32_mod, arith, Result, from_value, from_error, Result-cases, inl, inr,
}
use open_autosar.SomeIp.{Message, RequestId}
use open_autosar.SomeIp.Bytes.{read_u32, u16_lem, u24_lem, u32_lem}
use open_autosar.SomeIp.Messages.{fits_udp_payload, serialize_message, deserialize_message}
use open_autosar.SomeIp.RoundTrip.{InRange, deserialize_message-serialize_message}
use open_autosar.SomeIp.Discovery.{
  EntryType, entry_type_value, ServiceEntry, ServiceDiscoveryMessage, is_known_entry_type,
  to_entry_type, entry_bytes, serialize_entries, sd_header_bytes,
  serialize_service_discovery_payload, read_entry, add_entry, deserialize_entries,
  deserialize_service_discovery_payload, discovery_message, build_service_discovery_message,
  extract_service_discovery_message,
}

-- The fields of an entry fit their types.
pub record EntryInRange (e : ServiceEntry) : Type 0 where
  pub service_id : e.service_id < 65536
  pub instance_id : e.instance_id < 65536
  pub minor_version : e.minor_version < u32_mod
  pub eventgroup_id : e.eventgroup_id < 65536

known_entry_type : (t : EntryType) → is_known_entry_type (entry_type_value t) ≡ true
unfolding is_known_entry_type
known_entry_type EntryType.find_service = refl
known_entry_type EntryType.offer_service = refl
known_entry_type EntryType.subscribe_eventgroup = refl
known_entry_type EntryType.subscribe_eventgroup_ack = refl

to_entry_type_value : (t : EntryType) → to_entry_type (entry_type_value t) ≡ t
unfolding to_entry_type
to_entry_type_value EntryType.find_service = refl
to_entry_type_value EntryType.offer_service = refl
to_entry_type_value EntryType.subscribe_eventgroup = refl
to_entry_type_value EntryType.subscribe_eventgroup_ack = refl

read_entry-entry_bytes :
    (e : ServiceEntry) (rest : List ℕ)
    → EntryInRange e
    → e.ttl < 2 ^ 24
    → read_entry (entry_bytes e ++ rest) ≡ e
unfolding entry_bytes
read_entry-entry_bytes e rest r t = λ i. record {
  type = to_entry_type_value e.type i;
  service_id = u16_lem e.service_id r.service_id i;
  instance_id = u16_lem e.instance_id r.instance_id i;
  major_version = e.major_version;
  ttl = u24_lem e.ttl t i;
  minor_version = u32_lem e.minor_version r.minor_version i;
  eventgroup_id = u16_lem e.eventgroup_id r.eventgroup_id i;
}

deserialize_entries-cons :
    (e : ServiceEntry) (n : ℕ) (rest : List ℕ)
    → EntryInRange e
    → e.ttl < 2 ^ 24
    → deserialize_entries (suc n) (entry_bytes e ++ rest) ≡ add_entry e (deserialize_entries n rest)
unfolding deserialize_entries entry_bytes
deserialize_entries-cons e n rest r t =
    rw (known_entry_type e.type)
      (ap (λ x. add_entry x (deserialize_entries n rest)) (read_entry-entry_bytes e rest r t))

-- An entry that is written has valid identifiers and a short lifetime.
serialize_entries-head :
    (e : ServiceEntry) (es : List ServiceEntry) (bytes : List ℕ)
    → serialize_entries (e ∷ es) ≡ from_value bytes
    → (rest : List ℕ) × (serialize_entries es ≡ from_value rest)
      × (entry_bytes e ++ rest ≡ bytes)
      × (e.ttl < 2 ^ 24)
unfolding serialize_entries
serialize_entries-head e es bytes h = elim (Result-cases (serialize_entries es)) [
  | inl (rest, f) ↦ (rest, f, ground (arith, h, f), ground (arith, h, f))
  | inr (x, f) ↦ ground (arith, h, f)
]

length-entry :
    (e : ServiceEntry) (rest : List ℕ) → length (entry_bytes e ++ rest) ≡ 16 + length rest
unfolding entry_bytes
length-entry e rest = omega arith

length-header :
    (d : ServiceDiscoveryMessage) (bytes : List ℕ)
    → length (sd_header_bytes d ++ bytes) ≡ 8 + length bytes
unfolding sd_header_bytes
length-header d bytes = omega arith

nonempty : (es : List ServiceEntry) → is_nil es ≡ false → 0 < length es
nonempty [] h = ground arith
nonempty (e ∷ es) h = omega arith

-- A payload whose header and entries are read.
payload_read :
    (payload : List ℕ) (n : ℕ) (es : List ServiceEntry) (session : ℕ)
    → read_u32 payload 0 ≡ session
    → read_u32 payload 4 ≡ n * 16
    → length payload ≡ 8 + n * 16
    → 0 < n
    → deserialize_entries n (drop 8 payload) ≡ from_value es
    → deserialize_service_discovery_payload payload
      ≡ from_value (record { reboot_session = session; entries = es })
unfolding deserialize_service_discovery_payload
payload_read payload n es session s f l p h =
    let q : n * 16 / 16 ≡ n = omega arith in
    rw (deserialize_service_discovery_payload, f, l, q, h, s) (ground arith)

serialize_entries_lem :
    (es : List ServiceEntry) (bytes : List ℕ)
    → All EntryInRange es
    → serialize_entries es ≡ from_value bytes
    → (deserialize_entries (length es) bytes ≡ from_value es) × (length bytes ≡ length es * 16)
unfolding serialize_entries deserialize_entries
serialize_entries_lem [] bytes r h = (refl, ground arith)
serialize_entries_lem (e ∷ es) bytes r h =
    let (rest, f, same, ttl) = serialize_entries-head e es bytes h in
    let (ih, size) = serialize_entries_lem es rest r.1 f in
    rw (← same) (
      deserialize_entries-cons e (length es) rest r.0 ttl ∙ ap (add_entry e) ih,
      length-entry e rest ∙ omega (arith, size),
    )

sd_header_read :
    (d : ServiceDiscoveryMessage) (bytes : List ℕ)
    → d.reboot_session < u32_mod
    → length d.entries * 16 < u32_mod
    → (read_u32 (sd_header_bytes d ++ bytes) 0 ≡ d.reboot_session)
      × (read_u32 (sd_header_bytes d ++ bytes) 4 ≡ length d.entries * 16)
      × (length (sd_header_bytes d ++ bytes) ≡ 8 + length bytes)
      × (drop 8 (sd_header_bytes d ++ bytes) ≡ bytes)
unfolding sd_header_bytes
sd_header_read d bytes r h = (
  u32_lem d.reboot_session r,
  u32_lem (u32 (length d.entries * 16)) (omega arith) ∙ omega arith,
  omega arith,
  refl,
)

serialize_payload_inv :
    (d : ServiceDiscoveryMessage) (payload : List ℕ)
    → serialize_service_discovery_payload d ≡ from_value payload
    → (bytes : List ℕ) × (serialize_entries d.entries ≡ from_value bytes)
      × (sd_header_bytes d ++ bytes ≡ payload)
      × (0 < length d.entries)
unfolding serialize_service_discovery_payload
serialize_payload_inv d payload h = elim (Result-cases (serialize_entries d.entries)) [
  | inl (bytes, f) ↦ (bytes, f, ground (arith, h, f), nonempty d.entries (ground (arith, h, f)))
  | inr (x, f) ↦ ground (arith, h, f)
]

-- A service discovery payload that is written is read back, if its entries fit a length of 32 bits.
deserialize-serialize_payload :
    (d : ServiceDiscoveryMessage) (payload : List ℕ)
    → d.reboot_session < u32_mod
    → All EntryInRange d.entries
    → length payload < u32_mod
    → serialize_service_discovery_payload d ≡ from_value payload
    → deserialize_service_discovery_payload payload ≡ from_value d
unfolding deserialize_service_discovery_payload
deserialize-serialize_payload d payload s r b h =
    let (bytes, f, same, more) = serialize_payload_inv d payload h in
    let (back, size) = serialize_entries_lem d.entries bytes r f in
    let total : length (sd_header_bytes d ++ bytes) ≡ 8 + length bytes = length-header d bytes in
    let (session, field, _, tail) =
      sd_header_read d bytes s (omega (arith, b, size, total, ap length same)) in
    rw (← same) (
      payload_read (sd_header_bytes d ++ bytes) (length d.entries) d.entries d.reboot_session
        session field (omega (arith, total, size)) more (rw tail back))

-- A node that announces its services, and a node that receives the datagram.
unfoldable pub announce : ServiceDiscoveryMessage → RequestId → Result (List ℕ)
announce d r = elim (build_service_discovery_message d r) [
  | from_error e ↦ from_error e
  | from_value m ↦ serialize_message m
]

unfoldable pub receive_announcement : List ℕ → Result ServiceDiscoveryMessage
receive_announcement bytes = elim (deserialize_message bytes) [
  | from_error e ↦ from_error e
  | from_value m ↦ extract_service_discovery_message m
]

announce_inv :
    (d : ServiceDiscoveryMessage) (r : RequestId) (bytes : List ℕ)
    → announce d r ≡ from_value bytes
    → (payload : List ℕ) × (serialize_service_discovery_payload d ≡ from_value payload)
      × (serialize_message (discovery_message r payload) ≡ from_value bytes)
unfolding announce build_service_discovery_message
announce_inv d r bytes h = elim (Result-cases (serialize_service_discovery_payload d)) [
  | inl (payload, e) ↦ (payload, e, ground (arith, h, e))
  | inr (x, e) ↦ ground (arith, h, e)
]

small_payload :
    (m : Message) (bytes : List ℕ)
    → serialize_message m ≡ from_value bytes
    → length m.payload < u32_mod
unfolding serialize_message fits_udp_payload
small_payload m bytes h = ground arith

extract_discovery :
    (r : RequestId) (payload : List ℕ)
    → extract_service_discovery_message (discovery_message r payload)
      ≡ deserialize_service_discovery_payload payload
unfolding extract_service_discovery_message
extract_discovery r payload = refl

-- Entries and identifiers within their types, if they can be written as a service discovery message
-- that fits a datagram, are what a receiver of its bytes extracts: the same session and the same
-- entries in the same order.
pub receive_announcement-announce :
    (d : ServiceDiscoveryMessage) (r : RequestId) (bytes : List ℕ)
    → d.reboot_session < u32_mod
    → All EntryInRange d.entries
    → r.client_id < 65536
    → r.session_id < 65536
    → announce d r ≡ from_value bytes
    → receive_announcement bytes ≡ from_value d
unfolding receive_announcement
receive_announcement-announce d r bytes s a c k h =
    let (payload, e, f) = announce_inv d r bytes h in
    let m = discovery_message r payload in
    let fields : InRange m = record {
      service_id = omega arith;
      method_id = omega arith;
      client_id = c;
      session_id = k;
    } in
    rw (receive_announcement, deserialize_message-serialize_message m bytes fields f)
      (extract_discovery r payload
        ∙ deserialize-serialize_payload d payload s a (small_payload m bytes f) e)
