-- ===== src/E2e/Check.antt =====
-- e2e_protection.cpp: `CheckPayload`. The receiver's state is `none` for a null pointer.
use open_autosar.Base.{
  ℕ, ◌+◌, ◌-◌, ◌==◌, ltb, leb, Bool, true, false, not, ◌||◌, List, [], Option, none, some, u32_mod,
  if◌then◌else◌, Result, from_value, from_error,
}
use open_autosar.E2e.{
  CheckStatus, ProfileConfig, FrameHeader, ReceiverState, CheckedPayload, same_profile,
}
use open_autosar.E2e.Frame.{ParseResult, parse_protected_frame}
use open_autosar.E2e.Crc.{calculate_crc32, crc_material}
use open_autosar.E2e.Config.{max_counter_value, counter_delta, validate_profile_config}

abbrev pub make_checked : ProfileConfig → CheckStatus → Bool → FrameHeader → List ℕ → CheckedPayload
make_checked config status accepted header payload = record {
  status = status;
  accepted = accepted;
  header = header;
  payload = payload;
  trace = config.trace;
}

abbrev pub age_ms : ℕ → ℕ → ℕ
age_ms now_ms timestamp_ms = if ltb timestamp_ms now_ms then now_ms - timestamp_ms else 0

-- `++state->repetition_count` unless it is at its maximum.
abbrev pub count_repetition : ℕ → ℕ
count_repetition n = if n == u32_mod - 1 then n else n + 1

-- The state after a frame of the expected sequence.
abbrev pub received : FrameHeader → ReceiverState
received header = record {
  initialized = true;
  last_counter = header.counter;
  last_timestamp_ms = header.timestamp_ms;
  repetition_count = 0;
}

-- The end of `CheckPayload`, for a receiver with a state.
unfoldable pub check_sequence :
    ProfileConfig → ParseResult → ReceiverState → ReceiverState × CheckedPayload
check_sequence config p s =
    let delta = counter_delta config s.last_counter p.header.counter in
    let repetitions = count_repetition s.repetition_count in
    let accept : ReceiverState × CheckedPayload =
      (received p.header, make_checked config CheckStatus.ok true p.header p.payload) in
    if s.initialized
    then if p.header.counter == s.last_counter
      then (
        record s { repetition_count = repetitions },
        make_checked config CheckStatus.repeated (leb repetitions config.max_repetitions) p.header
            p.payload,
      )
      else if delta == 0 || ltb config.max_delta_counter delta
      then (s, make_checked config CheckStatus.wrong_sequence false p.header p.payload)
      else accept
    else accept

-- The end of `CheckPayload`.
unfoldable pub check_state :
    ProfileConfig → ParseResult → Option ReceiverState → Option ReceiverState × CheckedPayload
check_state config p none = (none, make_checked config CheckStatus.ok true p.header p.payload)
check_state config p (some s) = let r = check_sequence config p s in (some r.0, r.1)

-- `CheckPayload` on the parsed frame.
unfoldable pub check_parsed :
    ProfileConfig → ParseResult → ℕ → Option ReceiverState → Option ReceiverState × CheckedPayload
check_parsed config p now_ms state =
    if not (same_profile p.header.profile config.profile)
    then (state, make_checked config CheckStatus.wrong_profile false p.header [])
    else if not (p.header.data_id == config.data_id)
    then (state, make_checked config CheckStatus.wrong_data_id false p.header [])
    else if ltb (max_counter_value config.counter_bits) p.header.counter
    then (state, make_checked config CheckStatus.wrong_sequence false p.header [])
    else if not (calculate_crc32 (crc_material p.header p.payload) == p.header.crc32)
    then (state, make_checked config CheckStatus.crc_mismatch false p.header [])
    else if ltb config.timeout_ms (age_ms now_ms p.header.timestamp_ms)
    then (state, make_checked config CheckStatus.timeout false p.header p.payload)
    else check_state config p state

-- `parsed.status != CheckStatus::kOk`.
abbrev pub parsed_ok : CheckStatus → Bool
parsed_ok CheckStatus.ok = true
parsed_ok _ = false

unfoldable pub check_payload :
    ProfileConfig → List ℕ → ℕ → Option ReceiverState → Option ReceiverState × Result CheckedPayload
check_payload config frame now_ms state =
    let p = parse_protected_frame frame in
    let r = check_parsed config p now_ms state in
    elim (validate_profile_config config) [
      | from_error e ↦ (state, from_error e)
      | from_value _ ↦
          if parsed_ok p.status
          then (r.0, from_value r.1)
          else (state, from_value (make_checked config p.status false p.header []))
    ]
