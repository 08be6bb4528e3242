-- ===== src/E2e/Stream.antt =====
-- A sender that counts its frames, and a receiver that checks them (e2e_protection.cpp).
use open_autosar.Base.{
  ℕ, zero, suc, ◌+◌, ◌<◌, ◌≤◌, ◌≡◌, refl, ap, ◌==◌, ltb, leb, Bool, true, false, not, ◌||◌, List,
  [], ◌∷◌, All, length, Option, none, some, u32_mod, u64_mod, arith, Result, from_value, from_error,
  if◌then◌else◌,
}
use open_autosar.E2e.{
  CheckStatus, FaultInjectionMode, FrameHeader, ProfileConfig, ReceiverState, CheckedPayload,
}
use open_autosar.E2e.Config.{
  max_counter_value, counter_delta, validate_profile_config, next_counter,
}
use open_autosar.E2e.Check.{make_checked, count_repetition}
use open_autosar.E2e.Channel.{transmit, Sendable, sealed_header}
use open_autosar.E2e.Detection.{
  in_sequence, expects, after_acceptance, transmit_accepted, transmit_left, sealed, sealed-Genuine,
  check_parsed_timely, check_state_repeated,
}
use open_autosar.E2e.Counters.{counter_delta-next_counter}

-- The results for a sequence of payloads, each sent under the counter after the last one; a sender
-- that has no counter stops.
unfoldable pub stream :
    ProfileConfig → ℕ → ℕ → List (List ℕ) → ℕ → Option ReceiverState → List (Result CheckedPayload)
stream c timestamp_ms now_ms [] n s = []
stream c timestamp_ms now_ms (payload ∷ payloads) n s = elim (next_counter c n) [
  | from_error e ↦ from_error e ∷ []
  | from_value m ↦
      let r = transmit c payload m timestamp_ms FaultInjectionMode.none now_ms s in
      r.1 ∷ stream c timestamp_ms now_ms payloads m r.0
]

-- What the receiver's application gets.
unfoldable pub accepted_payloads : List (Result CheckedPayload) → List (List ℕ)
accepted_payloads [] = []
accepted_payloads (from_error e ∷ rs) = accepted_payloads rs
accepted_payloads (from_value r ∷ rs) =
    let rest = accepted_payloads rs in if r.accepted then r.payload ∷ rest else rest

-- A receiver that has nothing to compare with, or that has last accepted the counter `n`.
abbrev pub in_step : ℕ → Option ReceiverState → Bool
in_step n none = true
in_step n (some s) = not s.initialized || s.last_counter == n

positive_delta :
    (c : ProfileConfig)
    → validate_profile_config c ≡ from_value true
    → ltb c.max_delta_counter 1 ≡ false
unfolding validate_profile_config
positive_delta c h = ground arith

-- The next counter is expected by a receiver that is in step.
in_step-expects :
    (c : ProfileConfig) (n m : ℕ) (s : Option ReceiverState)
    → validate_profile_config c ≡ from_value true
    → (m == n) ≡ false
    → counter_delta c n m ≡ 1
    → in_step n s ≡ true
    → expects c m s ≡ true
in_step-expects c n m none v h d e = refl
in_step-expects c n m (some s) v h d e =
    ground (arith, positive_delta c v, e, ap (λ k. counter_delta c k m))

after_acceptance-in_step :
    (h : FrameHeader) (s : Option ReceiverState) → in_step h.counter (after_acceptance h s) ≡ true
after_acceptance-in_step h none = refl
after_acceptance-in_step h (some s) = ground arith

-- With a valid configuration, each payload of a sequence reaches the receiver's application, in
-- order, when the receiver is in step with the sender's counter or keeps no state, the counter is of
-- the configured width, the frames arrive within the time limit and the fields fit their types,
-- however often the counter wraps around.
pub stream_accepted :
    (c : ProfileConfig) (timestamp_ms now_ms : ℕ) (payloads : List (List ℕ)) (n : ℕ)
    (s : Option ReceiverState)
    → validate_profile_config c ≡ from_value true
    → c.data_id < u32_mod
    → timestamp_ms < u64_mod
    → now_ms ≤ timestamp_ms + c.timeout_ms
    → All (λ payload. length payload < u32_mod) payloads
    → n ≤ max_counter_value c.counter_bits
    → in_step n s ≡ true
    → accepted_payloads (stream c timestamp_ms now_ms payloads n s) ≡ payloads
unfolding stream accepted_payloads
stream_accepted c t now [] n s v d f l a k h = refl
stream_accepted c t now (payload ∷ payloads) n s v d f l a k h =
    let (m, e, b, ne, one) = counter_delta-next_counter c n v k in
    let ready : Sendable c payload m t = record {
      valid = v;
      data_id = d;
      size = a.0;
      counter = b;
      timestamp = f;
    } in
    let header = sealed_header c payload m t FaultInjectionMode.none in
    rw
      (
        stream,
        e,
        accepted_payloads,
        transmit_accepted c payload m t now s ready l (in_step-expects c n m s v ne one h),
      )
      (ap (λ (xs : List (List ℕ)). payload ∷ xs)
        (stream_accepted c t now payloads m (after_acceptance header s) v d f l a.1 b
          (after_acceptance-in_step header s)))

-- The receiver's state after a number of copies of one frame.
unfoldable pub redeliver :
    ProfileConfig → List ℕ → ℕ → ℕ → ℕ → ℕ → Option ReceiverState → Option ReceiverState
redeliver c payload n timestamp_ms now_ms zero s = s
redeliver c payload n timestamp_ms now_ms (suc k) s =
    (transmit c payload n timestamp_ms FaultInjectionMode.none now_ms
      (redeliver c payload n timestamp_ms now_ms k s)).0

module _ (c : ProfileConfig) (payload : List ℕ) (n timestamp_ms now_ms : ℕ) where
  -- A copy of the last accepted frame, within the time limit.
  transmit_copy :
      (s : ReceiverState)
      → Sendable c payload n timestamp_ms
      → now_ms ≤ timestamp_ms + c.timeout_ms
      → s.initialized ≡ true
      → n ≡ s.last_counter
      → transmit c payload n timestamp_ms FaultInjectionMode.none now_ms (some s) ≡ (
        some (record s { repetition_count = count_repetition s.repetition_count }),
        from_value (
            make_checked c CheckStatus.repeated
              (leb (count_repetition s.repetition_count) c.max_repetitions)
              (sealed_header c payload n timestamp_ms FaultInjectionMode.none)
              payload),
      )
  transmit_copy s ready h i e =
      rw
        (
          transmit_left c payload n timestamp_ms FaultInjectionMode.none now_ms (some s) ready refl,
          check_parsed_timely c (sealed c payload n timestamp_ms FaultInjectionMode.none) now_ms
              (some s)
              (sealed-Genuine c payload n timestamp_ms FaultInjectionMode.none refl ready.counter)
              h,
          check_state_repeated c (sealed c payload n timestamp_ms FaultInjectionMode.none) s i e,
        )
        refl

  -- The state after the first delivery and `k` copies.
  copied : ℕ → ReceiverState
  copied k = record {
    initialized = true;
    last_counter = n;
    last_timestamp_ms = timestamp_ms;
    repetition_count = k;
  }

  redeliver_state :
      (k : ℕ) (s : Option ReceiverState) (r : ReceiverState)
      → Sendable c payload n timestamp_ms
      → now_ms ≤ timestamp_ms + c.timeout_ms
      → s ≡ some r
      → in_sequence c n r ≡ true
      → suc k < u32_mod
      → redeliver c payload n timestamp_ms now_ms (suc k) s ≡ some (copied k)
  unfolding redeliver copied
  redeliver_state zero s r ready h e q l =
      rw (redeliver, e, transmit_accepted c payload n timestamp_ms now_ms (some r) ready h q) refl
  redeliver_state (suc k) s r ready h e q l =
      rw
        (
          redeliver,
          redeliver_state k s r ready h e q (omega arith),
          transmit_copy (copied k) ready h refl refl,
        )
        (ground arith)

  -- For a payload that can be sent, a receiver that expects its counter and a time within the
  -- limit: after the first delivery of the frame, the `k`-th copy of it is reported as repeated,
  -- with its payload, and is accepted exactly if `k` is at most the configured number of
  -- repetitions; here `k` is written as `k + 1` and is below 2^32.
  pub transmit_redelivered :
      (k : ℕ) (r : ReceiverState)
      → Sendable c payload n timestamp_ms
      → now_ms ≤ timestamp_ms + c.timeout_ms
      → in_sequence c n r ≡ true
      → suc k < u32_mod
      → (transmit c payload n timestamp_ms FaultInjectionMode.none now_ms
          (redeliver c payload n timestamp_ms now_ms (suc k) (some r))).1
        ≡ from_value (
            make_checked c CheckStatus.repeated
              (leb (suc k) c.max_repetitions)
              (sealed_header c payload n timestamp_ms FaultInjectionMode.none)
              payload)
  unfolding copied
  transmit_redelivered k r ready h q l =
      rw (redeliver_state k (some r) r ready h refl q l, transmit_copy (copied k) ready h refl refl)
        (ground arith)
