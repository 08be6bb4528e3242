-- ===== src/E2e/RoundTrip.antt =====
-- A frame that is written is read back (e2e_protection.cpp).
use open_autosar.Base.{
  ℕ, ◌+◌, ◌*◌, ◌/◌, ◌%◌, ◌^◌, ◌<◌, ◌≡◌, refl, ap, ◌==◌, ==_iff, ltb, true, false, List, length,
  u32_mod, u64_mod, arith, some,
}
use open_autosar.E2e.{Profile, CheckStatus, FrameHeader, header_size}
use open_autosar.E2e.Frame.{
  profile_wire_value, profile_from_wire, uint64_bytes, read_uint32, read_header,
  serialize_frame_with_crc, parse_fields, parse_protected_frame, rejected,
}

-- The fields fit their types.
pub record InRange (h : FrameHeader) : Type 0 where
  pub data_id : h.data_id < u32_mod
  pub counter : h.counter < u32_mod
  pub timestamp : h.timestamp_ms < u64_mod
  pub length : h.payload_length < u32_mod
  pub crc : h.crc32 < u32_mod

uint32_lem :
    (v : ℕ)
    → v < u32_mod
    → v / 2 ^ 24 % 256 * 2 ^ 24 + v / 2 ^ 16 % 256 * 2 ^ 16 + v / 2 ^ 8 % 256 * 2 ^ 8 + v % 256 ≡ v
uint32_lem v h = omega arith

uint64_lem :
    (v : ℕ)
    → v < u64_mod
    → read_uint32 (uint64_bytes v) 0 * 2 ^ 32 + read_uint32 (uint64_bytes v) 4 ≡ v
uint64_lem v h =
    omega (
      arith,
      uint32_lem (v / 2 ^ 32 % u32_mod) (omega arith),
      uint32_lem (v % u32_mod) (omega arith),
    )

read_header-serialize :
    (h : FrameHeader) (payload : List ℕ)
    → InRange h
    → read_header h.profile (serialize_frame_with_crc h payload) ≡ h
unfolding serialize_frame_with_crc
read_header-serialize h payload r = λ i. record {
  profile = h.profile;
  data_id = uint32_lem h.data_id r.data_id i;
  counter = uint32_lem h.counter r.counter i;
  timestamp_ms = uint64_lem h.timestamp_ms r.timestamp i;
  payload_length = uint32_lem h.payload_length r.length i;
  crc32 = uint32_lem h.crc32 r.crc i;
}

-- The length in the header is that of the frame.
length-serialize :
    (h : FrameHeader) (payload : List ℕ)
    → InRange h
    → h.payload_length ≡ length payload
    → (header_size + (read_header h.profile (serialize_frame_with_crc h payload)).payload_length
        == length (serialize_frame_with_crc h payload))
      ≡ true
unfolding serialize_frame_with_crc
length-serialize h payload r e =
    (==_iff _ _).1 (omega (arith, uint32_lem h.payload_length r.length))

profile_round_trip : (p : Profile) → profile_from_wire (profile_wire_value p) ≡ some p
unfolding profile_from_wire profile_wire_value
profile_round_trip Profile.profile01 = refl
profile_round_trip Profile.profile05 = refl

parse_fields-serialize :
    (h : FrameHeader) (payload : List ℕ)
    → InRange h
    → h.payload_length ≡ length payload
    → parse_fields h.profile (serialize_frame_with_crc h payload)
      ≡ record { status = CheckStatus.ok; header = h; payload = payload }
unfolding parse_fields serialize_frame_with_crc
parse_fields-serialize h payload r e = rw (length-serialize h payload r e) (
    ap (λ (k : FrameHeader). record { status = CheckStatus.ok; header = k; payload = payload })
      (read_header-serialize h payload r))

length-serialize_mismatch :
    (h : FrameHeader) (payload : List ℕ)
    → InRange h
    → (h.payload_length == length payload) ≡ false
    → (header_size + (read_header h.profile (serialize_frame_with_crc h payload)).payload_length
        == length (serialize_frame_with_crc h payload))
      ≡ false
unfolding serialize_frame_with_crc
length-serialize_mismatch h payload r e = ground (arith, uint32_lem h.payload_length r.length)

parse_fields_mismatch :
    (h : FrameHeader) (payload : List ℕ)
    → InRange h
    → (h.payload_length == length payload) ≡ false
    → parse_fields h.profile (serialize_frame_with_crc h payload) ≡ rejected CheckStatus.malformed h
unfolding parse_fields serialize_frame_with_crc
parse_fields_mismatch h payload r e =
    rw (length-serialize_mismatch h payload r e) (
      ap (λ (k : FrameHeader). rejected CheckStatus.malformed k)
        (read_header-serialize h payload r))

-- A written frame has a whole header.
not_short :
    (h : FrameHeader) (payload : List ℕ)
    → ltb (length (serialize_frame_with_crc h payload)) header_size ≡ false
unfolding serialize_frame_with_crc
not_short h payload = ground arith

-- Whatever the header's fields and the payload are, within their types and with the payload's
-- length in the header, the frame that is written for them is parsed, and gives them back.
pub parse_protected_frame-serialize :
    (h : FrameHeader) (payload : List ℕ)
    → InRange h
    → h.payload_length ≡ length payload
    → parse_protected_frame (serialize_frame_with_crc h payload)
      ≡ record { status = CheckStatus.ok; header = h; payload = payload }
unfolding parse_protected_frame serialize_frame_with_crc
parse_protected_frame-serialize h payload r e =
    rw (not_short h payload, profile_round_trip h.profile) (parse_fields-serialize h payload r e)

-- A frame whose header has another length than its payload is refused.
pub parse_protected_frame_mismatch :
    (h : FrameHeader) (payload : List ℕ)
    → InRange h
    → (h.payload_length == length payload) ≡ false
    → parse_protected_frame (serialize_frame_with_crc h payload) ≡ rejected CheckStatus.malformed h
unfolding parse_protected_frame serialize_frame_with_crc
parse_protected_frame_mismatch h payload r e =
    rw (not_short h payload, profile_round_trip h.profile) (parse_fields_mismatch h payload r e)
