-- ===== src/E2e/Config.antt =====
-- e2e_protection.cpp: `ValidateProfileConfig`, the counters and `NextCounter`.
use open_autosar.Base.{
  ℕ, ◌+◌, ◌-◌, ◌%◌, ◌^◌, ◌==◌, ltb, leb, Bool, true, not, ◌||◌, String, is_empty, if◌then◌else◌,
  u32, u32_mod, Result, from_value, from_error, ErrorCode,
}
use open_autosar.E2e.{ProfileConfig}

abbrev pub make_error : String → ErrorCode
make_error message = record { domain = "e2e-protection"; message = message }

unfoldable pub max_counter_value : ℕ → ℕ
max_counter_value counter_bits = if counter_bits == 32 then u32_mod - 1 else 2 ^ counter_bits - 1

abbrev pub counter_modulus : ℕ → ℕ
counter_modulus counter_bits = max_counter_value counter_bits + 1

abbrev pub is_supported_counter_width : ℕ → Bool
is_supported_counter_width counter_bits =
    counter_bits == 4 || counter_bits == 8 || counter_bits == 16 || counter_bits == 32

-- `static_cast<std::uint32_t>` of the difference in the counter's modulus.
unfoldable pub counter_delta : ProfileConfig → ℕ → ℕ → ℕ
counter_delta config previous current =
    if leb previous current
    then current - previous
    else u32 (counter_modulus config.counter_bits - previous + current)

-- `ProfileWireValue` has a value for both profiles.
unfoldable pub validate_profile_config : ProfileConfig → Result Bool
validate_profile_config c =
    if c.data_id == 0
    then from_error (make_error "E2E data ID must be non-zero")
    else if not (is_supported_counter_width c.counter_bits)
    then from_error (make_error "E2E counter width is unsupported")
    else if c.max_delta_counter == 0 || ltb (max_counter_value c.counter_bits) c.max_delta_counter
    then from_error (make_error "E2E max delta counter is invalid")
    else if c.timeout_ms == 0
    then from_error (make_error "E2E timeout must be non-zero")
    else if is_empty c.trace.service_instance || is_empty c.trace.event_name
    then from_error (make_error "E2E trace service or event is missing")
    else if is_empty c.trace.source_model_path || is_empty c.trace.source_model_pointer
    then from_error (make_error "E2E source model trace is missing")
    else from_value true

unfoldable pub next_counter : ProfileConfig → ℕ → Result ℕ
next_counter config previous_counter = elim (validate_profile_config config) [
  | from_error e ↦ from_error e
  | from_value _ ↦
      if ltb (max_counter_value config.counter_bits) previous_counter
      then from_error (make_error "E2E counter is out of range")
      else from_value (u32 ((previous_counter + 1) % counter_modulus config.counter_bits))
]
