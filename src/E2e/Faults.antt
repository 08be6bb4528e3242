-- ===== src/E2e/Faults.antt =====
-- The injected faults, seen by the receiver (e2e_protection.cpp).
use Prim.Native.Nat.{bit_xor}
use open_autosar.Base.{
  ℕ, suc, ◌+◌, ◌-◌, ◌*◌, ◌/◌, ◌%◌, ◌^◌, ◌<◌, ◌≤◌, ◌≡◌, refl, ap, ◌∙◌, inl, inr, ◌⊎◌, ◌==◌, Bool,
  true, false, not, List, [], ◌∷◌, length, is_nil, set, pop_back, Option, arith, Result, from_value,
}
use open_autosar.E2e.{
  CheckStatus, FaultInjectionMode, FrameHeader, ProfileConfig, ReceiverState, CheckedPayload,
  same_profile,
}
use open_autosar.E2e.Frame.{ParseResult, serialize_frame_with_crc}
use open_autosar.E2e.Crc.{calculate_crc32, crc_material}
use open_autosar.E2e.Config.{max_counter_value, validate_profile_config}
use open_autosar.E2e.Protect.{damage_frame}
use open_autosar.E2e.Check.{make_checked, check_parsed, check_payload}
use open_autosar.E2e.RoundTrip.{InRange, parse_protected_frame_mismatch}
use open_autosar.E2e.Channel.{
  transmit, transmit_frame, Sendable, sealed_header, sealed_header-InRange, check_payload-serialize,
}
use open_autosar.E2e.Detection.{
  crc_material_lem, same_profile_self, check_parsed_late, transmit_left, sealed, sealed-Genuine,
}
use open_autosar.E2e.Xor.{xor_one}

-- The modes that damage the frame or its identity, and what the receiver reports of them; without
-- a payload there is nothing to truncate.
abbrev pub damages : FaultInjectionMode → List ℕ → Bool
damages FaultInjectionMode.wrong_data_id payload = true
damages FaultInjectionMode.corrupt_crc payload = true
damages FaultInjectionMode.truncate_payload payload = not (is_nil payload)
damages _ payload = false

abbrev pub damage_status : FaultInjectionMode → CheckStatus
damage_status FaultInjectionMode.wrong_data_id = CheckStatus.wrong_data_id
damage_status FaultInjectionMode.corrupt_crc = CheckStatus.crc_mismatch
damage_status _ = CheckStatus.malformed

abbrev flip : ℕ → ℕ
flip v = v / 2 * 2 + (1 - v % 2)

flipped : FrameHeader → FrameHeader
flipped h = record h { crc32 = flip h.crc32 }

-- A flipped bit in the frame's last header byte is one of the header's checksum.
corrupt_serialize :
    (h : FrameHeader) (payload : List ℕ)
    → damage_frame FaultInjectionMode.corrupt_crc (serialize_frame_with_crc h payload)
      ≡ serialize_frame_with_crc (flipped h) payload
unfolding serialize_frame_with_crc flipped
corrupt_serialize h payload =
    let v = h.crc32 in
    let p : v / 2 ^ 24 % 256 ≡ flip v / 2 ^ 24 % 256 = omega arith in
    let q : v / 2 ^ 16 % 256 ≡ flip v / 2 ^ 16 % 256 = omega arith in
    let r : v / 2 ^ 8 % 256 ≡ flip v / 2 ^ 8 % 256 = omega arith in
    let s : bit_xor (v % 256) 1 ≡ flip v % 256 = omega (arith, xor_one (v % 256)) in
    λ i.
      set (set (set (set (serialize_frame_with_crc h payload) 28 (p i)) 29 (q i)) 30 (r i)) 31 (s i)

check_parsed_wrong_id :
    (c : ProfileConfig) (p : ParseResult) (now_ms : ℕ) (s : Option ReceiverState)
    → same_profile p.header.profile c.profile ≡ true
    → ¬ (p.header.data_id ≡ c.data_id)
    → check_parsed c p now_ms s ≡ (s, make_checked c CheckStatus.wrong_data_id false p.header [])
unfolding check_parsed
check_parsed_wrong_id c p now_ms s e h = ground arith

check_parsed_wrong_crc :
    (c : ProfileConfig) (p : ParseResult) (now_ms : ℕ) (s : Option ReceiverState)
    → same_profile p.header.profile c.profile ≡ true
    → p.header.data_id ≡ c.data_id
    → p.header.counter ≤ max_counter_value c.counter_bits
    → ¬ (calculate_crc32 (crc_material p.header p.payload) ≡ p.header.crc32)
    → check_parsed c p now_ms s ≡ (s, make_checked c CheckStatus.crc_mismatch false p.header [])
unfolding check_parsed
check_parsed_wrong_crc c p now_ms s e f g h = ground arith

check_payload_malformed :
    (c : ProfileConfig) (h : FrameHeader) (payload : List ℕ) (now_ms : ℕ)
    (state : Option ReceiverState)
    → validate_profile_config c ≡ from_value true
    → InRange h
    → (h.payload_length == length payload) ≡ false
    → check_payload c (serialize_frame_with_crc h payload) now_ms state
      ≡ (state, from_value (make_checked c CheckStatus.malformed false h []))
unfolding check_payload
check_payload_malformed c h payload now_ms state v r e =
    rw (check_payload, v, parse_protected_frame_mismatch h payload r e) refl

list_cases : (xs : List ℕ) → (xs ≡ []) ⊎ ((b : ℕ) × (bs : List ℕ) × (xs ≡ b ∷ bs))
list_cases [] = inl refl
list_cases (x ∷ xs) = inr (x, xs, refl)

length-pop_back : (x : ℕ) (xs : List ℕ) → suc (length (pop_back (x ∷ xs))) ≡ length (x ∷ xs)
length-pop_back x [] = refl
length-pop_back x (y ∷ ys) = ap suc (length-pop_back y ys)

pop_back-serialize :
    (h : FrameHeader) (b : ℕ) (bs : List ℕ)
    → damage_frame FaultInjectionMode.truncate_payload (serialize_frame_with_crc h (b ∷ bs))
      ≡ serialize_frame_with_crc h (pop_back (b ∷ bs))
unfolding serialize_frame_with_crc
pop_back-serialize h b bs = ground arith

-- The injected faults of one transmission with the receiver's clock at `now_ms`.
module _ (c : ProfileConfig) (payload : List ℕ) (counter timestamp_ms now_ms : ℕ)
    (state : Option ReceiverState) where
  Refused : CheckStatus → Option ReceiverState × Result CheckedPayload → Type 0
  Refused status r =
      (h : FrameHeader) × (r ≡ (state, from_value (make_checked c status false h [])))

  transmit_wrong_id :
      Sendable c payload counter timestamp_ms
      → Refused CheckStatus.wrong_data_id
          (transmit c payload counter timestamp_ms FaultInjectionMode.wrong_data_id now_ms state)
  unfolding Refused
  transmit_wrong_id s = (
    sealed_header c payload counter timestamp_ms FaultInjectionMode.wrong_data_id,
    rw
        (
          transmit_left c payload counter timestamp_ms FaultInjectionMode.wrong_data_id now_ms state
              s refl,
          check_parsed_wrong_id c
              (sealed c payload counter timestamp_ms FaultInjectionMode.wrong_data_id) now_ms state
              (same_profile_self c.profile) (λ e. omega (arith, e, xor_one c.data_id)),
        )
        refl,
  )

  flipped-InRange : (h : FrameHeader) → InRange h → InRange (flipped h)
  unfolding flipped
  flipped-InRange h r = record {
    data_id = r.data_id;
    counter = r.counter;
    timestamp = r.timestamp;
    length = r.length;
    crc = omega (arith, r.crc);
  }

  flipped_length :
      (h : FrameHeader)
      → h.payload_length ≡ length payload
      → (flipped h).payload_length ≡ length payload
  unfolding flipped
  flipped_length h e = e

  corrupt_judged :
      Sendable c payload counter timestamp_ms
      → check_parsed c
          (record {
            status = CheckStatus.ok;
            header =
                flipped
                  (sealed_header c payload counter timestamp_ms FaultInjectionMode.corrupt_crc);
            payload = payload;
          })
          now_ms
          state
        ≡ (
          state,
          make_checked c CheckStatus.crc_mismatch false
              (flipped
                (sealed_header c payload counter timestamp_ms FaultInjectionMode.corrupt_crc))
              [],
        )
  unfolding flipped
  corrupt_judged s =
      let h = sealed_header c payload counter timestamp_ms FaultInjectionMode.corrupt_crc in
      check_parsed_wrong_crc c
        (record { status = CheckStatus.ok; header = flipped h; payload = payload }) now_ms state
        (same_profile_self c.profile) refl s.counter
        λ e. omega (
          arith,
          e,
          ap calculate_crc32 (crc_material_lem h (flip h.crc32) payload),
          ap calculate_crc32 (crc_material_lem h h.crc32 payload),
          ap calculate_crc32 (crc_material_lem h 0 payload),
        )

  transmit_corrupt :
      Sendable c payload counter timestamp_ms
      → Refused CheckStatus.crc_mismatch
          (transmit c payload counter timestamp_ms FaultInjectionMode.corrupt_crc now_ms state)
  unfolding Refused
  transmit_corrupt s =
      let h = sealed_header c payload counter timestamp_ms FaultInjectionMode.corrupt_crc in
      (
        flipped h,
        rw
            (
              transmit_frame c payload counter timestamp_ms FaultInjectionMode.corrupt_crc now_ms
                  state s,
              corrupt_serialize h payload,
              check_payload-serialize c (flipped h) payload now_ms state s.valid
                  (flipped-InRange h (
                    sealed_header-InRange c payload counter timestamp_ms
                      FaultInjectionMode.corrupt_crc s))
                  (flipped_length h (omega (arith, s.size))),
              corrupt_judged s,
            )
            refl,
      )

  transmit_truncated :
      (b : ℕ) (bs : List ℕ)
      → payload ≡ b ∷ bs
      → Sendable c payload counter timestamp_ms
      → Refused CheckStatus.malformed
          (transmit c payload counter timestamp_ms FaultInjectionMode.truncate_payload now_ms state)
  unfolding Refused
  transmit_truncated b bs e s =
      let h = sealed_header c payload counter timestamp_ms FaultInjectionMode.truncate_payload in
      (
        h,
        transmit_frame c payload counter timestamp_ms FaultInjectionMode.truncate_payload now_ms
              state s
            ∙ ap
                (λ xs.
                  check_payload c
                    (damage_frame FaultInjectionMode.truncate_payload
                      (serialize_frame_with_crc h xs))
                    now_ms state)
                e
            ∙ ap (λ xs. check_payload c xs now_ms state) (pop_back-serialize h b bs)
            ∙ check_payload_malformed c h (pop_back (b ∷ bs)) now_ms state s.valid
                (sealed_header-InRange c payload counter timestamp_ms
                  FaultInjectionMode.truncate_payload s)
                (ground (arith, ap length e, length-pop_back b bs, s.size)),
      )

  -- For a payload that can be sent, and whatever the receiver's clock and state are: a frame whose
  -- identifier or checksum the sender has damaged, or whose payload, not empty, has lost its last
  -- byte, is reported under the status that names the damage, is not accepted, hands out no payload
  -- and leaves the receiver's state as it was.
  pub transmit_damaged :
      (fault : FaultInjectionMode)
      → Sendable c payload counter timestamp_ms
      → damages fault payload ≡ true
      → (h : FrameHeader) × (transmit c payload counter timestamp_ms fault now_ms state
          ≡ (state, from_value (make_checked c (damage_status fault) false h [])))
  unfolding Refused
  transmit_damaged FaultInjectionMode.wrong_data_id s d = transmit_wrong_id s
  transmit_damaged FaultInjectionMode.corrupt_crc s d = transmit_corrupt s
  transmit_damaged FaultInjectionMode.truncate_payload s d = elim (list_cases payload) [
    | inl e ↦ ground (arith, ap is_nil e, d)
    | inr (b, bs, e) ↦ transmit_truncated b bs e s
  ]
  transmit_damaged FaultInjectionMode.none s d = ground arith
  transmit_damaged FaultInjectionMode.repeat_counter s d = ground arith
  transmit_damaged FaultInjectionMode.stale_timestamp s d = ground arith

  -- For a payload that can be sent: a frame that is given a stale time, and that arrives no earlier
  -- than its true time and after the time limit counted from zero, is reported as late, is not
  -- accepted and leaves the receiver's state as it was.
  pub transmit_stale :
      Sendable c payload counter timestamp_ms
      → timestamp_ms ≤ now_ms
      → c.timeout_ms < now_ms
      → transmit c payload counter timestamp_ms FaultInjectionMode.stale_timestamp now_ms state ≡ (
        state,
        from_value (
            make_checked c CheckStatus.timeout false
              (sealed_header c payload counter timestamp_ms FaultInjectionMode.stale_timestamp)
              payload),
      )
  transmit_stale s h k =
      rw
        (
          transmit_left c payload counter timestamp_ms FaultInjectionMode.stale_timestamp now_ms
              state s refl,
          check_parsed_late c
              (sealed c payload counter timestamp_ms FaultInjectionMode.stale_timestamp) now_ms
              state
              (sealed-Genuine c payload counter timestamp_ms FaultInjectionMode.stale_timestamp refl
                s.counter)
              (ground arith),
        )
        refl
