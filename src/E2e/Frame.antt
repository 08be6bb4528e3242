-- ===== src/E2e/Frame.antt =====
-- e2e_protection.cpp: the layout of a protected frame, written and read.
use open_autosar.Base.{
  ℕ, ◌+◌, ◌*◌, ◌/◌, ◌%◌, ◌^◌, ◌==◌, ltb, Bool, not, ◌&&◌, List, [], ◌∷◌, ◌++◌, Option, none, some,
  length, get_or, drop, if◌then◌else◌, u32_mod,
}
use open_autosar.E2e.{
  Profile, profile01, profile05, CheckStatus, FrameHeader, header_size, frame_version,
}

abbrev pub magic : List ℕ
magic = b'O' ∷ b'A' ∷ b'E' ∷ b'2' ∷ []

unfoldable pub profile_wire_value : Profile → ℕ
profile_wire_value profile01 = 1
profile_wire_value profile05 = 5

unfoldable pub profile_from_wire : ℕ → Option Profile
profile_from_wire v = if v == 1 then some profile01 else if v == 5 then some profile05 else none

-- What `AppendUint16`, `AppendUint32` and `AppendUint64` push: the most significant byte first.
abbrev pub uint16_bytes : ℕ → List ℕ
uint16_bytes v = (v / 2 ^ 8 % 256) ∷ (v % 256) ∷ []

abbrev pub uint32_bytes : ℕ → List ℕ
uint32_bytes v = (v / 2 ^ 24 % 256) ∷ (v / 2 ^ 16 % 256) ∷ (v / 2 ^ 8 % 256) ∷ (v % 256) ∷ []

abbrev pub uint64_bytes : ℕ → List ℕ
uint64_bytes v = uint32_bytes (v / 2 ^ 32 % u32_mod) ++ uint32_bytes (v % u32_mod)

-- The shifted bytes have no bit in common, so their `|` is their sum.
abbrev pub read_uint16 : List ℕ → ℕ → ℕ
read_uint16 bytes offset = get_or bytes offset 0 * 2 ^ 8 + get_or bytes (offset + 1) 0

abbrev pub read_uint32 : List ℕ → ℕ → ℕ
read_uint32 bytes offset =
    get_or bytes offset 0 * 2 ^ 24
    + get_or bytes (offset + 1) 0 * 2 ^ 16
    + get_or bytes (offset + 2) 0 * 2 ^ 8
    + get_or bytes (offset + 3) 0

abbrev pub read_uint64 : List ℕ → ℕ → ℕ
read_uint64 bytes offset = read_uint32 bytes offset * 2 ^ 32 + read_uint32 bytes (offset + 4)

unfoldable pub serialize_frame_with_crc : FrameHeader → List ℕ → List ℕ
unfolding profile_wire_value
serialize_frame_with_crc h payload =
    magic
    ++ (frame_version ∷ profile_wire_value h.profile ∷ [])
    ++ uint16_bytes 0
    ++ uint32_bytes h.data_id
    ++ uint32_bytes h.counter
    ++ uint64_bytes h.timestamp_ms
    ++ uint32_bytes h.payload_length
    ++ uint32_bytes h.crc32
    ++ payload

pub record ParseResult : Type 0 where
  pub status : CheckStatus
  pub header : FrameHeader
  pub payload : List ℕ

-- `FrameHeader{}`.
abbrev pub empty_header : FrameHeader
empty_header = record {
  profile = profile01;
  data_id = 0;
  counter = 0;
  timestamp_ms = 0;
  payload_length = 0;
  crc32 = 0;
}

abbrev pub rejected : CheckStatus → FrameHeader → ParseResult
rejected status header = record { status = status; header = header; payload = [] }

abbrev pub starts_with_magic : List ℕ → Bool
starts_with_magic frame =
    get_or frame 0 0 == b'O'
    && get_or frame 1 0 == b'A'
    && get_or frame 2 0 == b'E'
    && get_or frame 3 0 == b'2'

-- The header behind the profile.
abbrev pub read_header : Profile → List ℕ → FrameHeader
read_header profile frame = record {
  profile = profile;
  data_id = read_uint32 frame 8;
  counter = read_uint32 frame 12;
  timestamp_ms = read_uint64 frame 16;
  payload_length = read_uint32 frame 24;
  crc32 = read_uint32 frame 28;
}

-- `ParseProtectedFrame` once the profile is known.
unfoldable pub parse_fields : Profile → List ℕ → ParseResult
parse_fields profile frame =
    let header = read_header profile frame in
    if not (read_uint16 frame 6 == 0)
    then rejected CheckStatus.malformed empty_header
    else if header_size + header.payload_length == length frame
    then record { status = CheckStatus.ok; header = header; payload = drop header_size frame }
    else rejected CheckStatus.malformed header

unfoldable pub parse_protected_frame : List ℕ → ParseResult
parse_protected_frame frame =
    if ltb (length frame) header_size
    then rejected CheckStatus.malformed empty_header
    else if not (starts_with_magic frame)
    then rejected CheckStatus.malformed empty_header
    else if not (get_or frame 4 0 == frame_version)
    then rejected CheckStatus.malformed empty_header
    else elim (profile_from_wire (get_or frame 5 0)) [
      | none ↦ rejected CheckStatus.wrong_profile empty_header
      | some profile ↦ parse_fields profile frame
    ]
