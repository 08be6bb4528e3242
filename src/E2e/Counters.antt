-- ===== src/E2e/Counters.antt =====
-- The counters of sender and receiver (`NextCounter`, `CounterDelta` of e2e_protection.cpp).
use open_autosar.Base.{
  ℕ, ◌+◌, ◌%◌, ◌<◌, ◌≤◌, ◌≡◌, ◌==◌, true, false, inl, inr, ◌⊎◌, u32, arith, from_value,
  if◌then◌else◌,
}
use open_autosar.E2e.{ProfileConfig}
use open_autosar.E2e.Config.{
  max_counter_value, counter_modulus, is_supported_counter_width, counter_delta,
  validate_profile_config, next_counter,
}
use open_autosar.E2e.Channel.{supported_width}

width_cases :
    (bits : ℕ)
    → is_supported_counter_width bits ≡ true
    → (bits ≡ 4) ⊎ (bits ≡ 8) ⊎ (bits ≡ 16) ⊎ (bits ≡ 32)
width_cases bits h = ground arith

-- The next counter, with the wrap-around written as a case.
abbrev successor : ℕ → ℕ → ℕ
successor max n = if n == max then 0 else n + 1

successor_lem :
    (bits n : ℕ)
    → is_supported_counter_width bits ≡ true
    → n ≤ max_counter_value bits
    → u32 ((n + 1) % counter_modulus bits) ≡ successor (max_counter_value bits) n
unfolding max_counter_value
successor_lem bits n h k = elim (width_cases bits h) [
  | inl e ↦ ground arith
  | inr (inl e) ↦ ground arith
  | inr (inr (inl e)) ↦ ground arith
  | inr (inr (inr e)) ↦ ground arith
]

successor-next :
    (bits n : ℕ)
    → is_supported_counter_width bits ≡ true
    → n ≤ max_counter_value bits
    → successor (max_counter_value bits) n ≤ max_counter_value bits
successor-next bits n h k = ground arith

positive_range : (bits : ℕ) → is_supported_counter_width bits ≡ true → 0 < max_counter_value bits
unfolding max_counter_value
positive_range bits h = elim (width_cases bits h) [
  | inl e ↦ ground arith
  | inr (inl e) ↦ ground arith
  | inr (inr (inl e)) ↦ ground arith
  | inr (inr (inr e)) ↦ ground arith
]

counter_delta-successor :
    (c : ProfileConfig) (n : ℕ)
    → is_supported_counter_width c.counter_bits ≡ true
    → n ≤ max_counter_value c.counter_bits
    → counter_delta c n (successor (max_counter_value c.counter_bits) n) ≡ 1
unfolding counter_delta
counter_delta-successor c n h k = ground (arith, positive_range c.counter_bits h)

-- With a valid configuration the counter that follows a counter of the configured width is one of
-- that width, another one, and one step ahead for the receiver, past the largest counter too.
pub counter_delta-next_counter :
    (c : ProfileConfig) (n : ℕ)
    → validate_profile_config c ≡ from_value true
    → n ≤ max_counter_value c.counter_bits
    → (m : ℕ) × (next_counter c n ≡ from_value m)
      × (m ≤ max_counter_value c.counter_bits)
      × ((m == n) ≡ false)
      × (counter_delta c n m ≡ 1)
unfolding next_counter
counter_delta-next_counter c n v k =
    let w = supported_width c true v in
    let top = max_counter_value c.counter_bits in
    (
      successor top n,
      rw (next_counter, v) (ground (arith, successor_lem c.counter_bits n w k)),
      successor-next c.counter_bits n w k,
      ground (arith, positive_range c.counter_bits w),
      counter_delta-successor c n w k,
    )
