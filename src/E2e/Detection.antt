-- ===== src/E2e/Detection.antt =====
-- What a receiver makes of the faults that `ProtectPayload` injects (e2e_protection.cpp).
use open_autosar.Base.{
  ℕ, ◌||◌, ◌&&◌, leb, ◌+◌, ◌<◌, ◌≤◌, ◌≡◌, refl, ap, ◌==◌, ==_iff, ltb, Bool, true, false, not, List,
  Option, none, some, arith, from_value,
}
use open_autosar.E2e.{
  Profile, CheckStatus, FaultInjectionMode, FrameHeader, ProfileConfig, ReceiverState, same_profile,
}
use open_autosar.E2e.Frame.{ParseResult, serialize_frame_with_crc}
use open_autosar.E2e.Crc.{calculate_crc32, crc_material}
use open_autosar.E2e.Config.{max_counter_value, counter_delta}
use open_autosar.E2e.Protect.{damage_frame, effective_counter}
use open_autosar.E2e.Check.{
  make_checked, count_repetition, received, check_sequence, check_state, check_parsed,
}
use open_autosar.E2e.Channel.{
  transmit, transmit_frame, Sendable, sealed_header, sealed_header-InRange, check_payload-serialize,
}

pub same_profile_self : (p : Profile) → same_profile p p ≡ true
same_profile_self Profile.profile01 = refl
same_profile_self Profile.profile05 = refl

-- The checksum is taken of a frame without one.
pub crc_material_lem :
    (h : FrameHeader) (crc : ℕ) (payload : List ℕ)
    → crc_material (record h { crc32 = crc }) payload ≡ crc_material h payload
unfolding crc_material serialize_frame_with_crc
crc_material_lem h crc payload = refl

-- A frame of the receiver's own sender: the profile, the identifier, the counter and the checksum
-- are right.
pub record Genuine (c : ProfileConfig) (p : ParseResult) : Type 0 where
  pub profile : same_profile p.header.profile c.profile ≡ true
  pub data_id : p.header.data_id ≡ c.data_id
  pub counter : p.header.counter ≤ max_counter_value c.counter_bits
  pub crc : calculate_crc32 (crc_material p.header p.payload) ≡ p.header.crc32

pub check_parsed_timely :
    (c : ProfileConfig) (p : ParseResult) (now_ms : ℕ) (s : Option ReceiverState)
    → Genuine c p
    → now_ms ≤ p.header.timestamp_ms + c.timeout_ms
    → check_parsed c p now_ms s ≡ check_state c p s
unfolding check_parsed
check_parsed_timely c p now_ms s g h = ground (arith, g.profile, g.data_id, g.counter, g.crc)

pub check_parsed_late :
    (c : ProfileConfig) (p : ParseResult) (now_ms : ℕ) (s : Option ReceiverState)
    → Genuine c p
    → p.header.timestamp_ms + c.timeout_ms < now_ms
    → check_parsed c p now_ms s ≡ (s, make_checked c CheckStatus.timeout false p.header p.payload)
unfolding check_parsed
check_parsed_late c p now_ms s g h = ground (arith, g.profile, g.data_id, g.counter, g.crc)

-- A counter that a receiver in the state expects.
abbrev pub in_sequence : ProfileConfig → ℕ → ReceiverState → Bool
in_sequence c n s =
    let delta = counter_delta c s.last_counter n in
    not s.initialized
    || (not (n == s.last_counter) && not (delta == 0 || ltb c.max_delta_counter delta))

abbrev pub expects : ProfileConfig → ℕ → Option ReceiverState → Bool
expects c n none = true
expects c n (some s) = in_sequence c n s

abbrev pub after_acceptance : FrameHeader → Option ReceiverState → Option ReceiverState
after_acceptance h none = none
after_acceptance h (some s) = some (received h)

check_sequence_expected :
    (c : ProfileConfig) (p : ParseResult) (s : ReceiverState)
    → in_sequence c p.header.counter s ≡ true
    → check_sequence c p s
      ≡ (received p.header, make_checked c CheckStatus.ok true p.header p.payload)
unfolding check_sequence
check_sequence_expected c p s h = ground arith

pub check_state_expected :
    (c : ProfileConfig) (p : ParseResult) (s : Option ReceiverState)
    → expects c p.header.counter s ≡ true
    → check_state c p s
      ≡ (after_acceptance p.header s, make_checked c CheckStatus.ok true p.header p.payload)
unfolding check_state
check_state_expected c p none h = refl
check_state_expected c p (some s) h = rw (check_sequence_expected c p s h) refl

-- The repetition of the last frame.
pub check_state_repeated :
    (c : ProfileConfig) (p : ParseResult) (s : ReceiverState)
    → s.initialized ≡ true
    → p.header.counter ≡ s.last_counter
    → check_state c p (some s) ≡ (
      some (record s { repetition_count = count_repetition s.repetition_count }),
      make_checked c CheckStatus.repeated
          (leb (count_repetition s.repetition_count) c.max_repetitions)
          p.header
          p.payload,
    )
unfolding check_state check_sequence
check_state_repeated c p s h e = rw (h, (==_iff p.header.counter s.last_counter).1 e) refl

-- The modes that leave the written bytes alone.
abbrev pub leaves_frame : FaultInjectionMode → Bool
leaves_frame FaultInjectionMode.corrupt_crc = false
leaves_frame FaultInjectionMode.truncate_payload = false
leaves_frame _ = true

damage_frame_left :
    (fault : FaultInjectionMode) (frame : List ℕ)
    → leaves_frame fault ≡ true
    → damage_frame fault frame ≡ frame
damage_frame_left FaultInjectionMode.none frame h = refl
damage_frame_left FaultInjectionMode.corrupt_crc frame h = ground arith
damage_frame_left FaultInjectionMode.wrong_data_id frame h = refl
damage_frame_left FaultInjectionMode.repeat_counter frame h = refl
damage_frame_left FaultInjectionMode.stale_timestamp frame h = refl
damage_frame_left FaultInjectionMode.truncate_payload frame h = ground arith

module _ (c : ProfileConfig) (payload : List ℕ) (counter timestamp_ms : ℕ) where
  abbrev pub sealed : FaultInjectionMode → ParseResult
  sealed fault = record {
    status = CheckStatus.ok;
    header = sealed_header c payload counter timestamp_ms fault;
    payload = payload;
  }

  pub transmit_left :
      (fault : FaultInjectionMode) (now_ms : ℕ) (state : Option ReceiverState)
      → Sendable c payload counter timestamp_ms
      → leaves_frame fault ≡ true
      → transmit c payload counter timestamp_ms fault now_ms state
        ≡ (let r = check_parsed c (sealed fault) now_ms state in (r.0, from_value r.1))
  transmit_left fault now_ms state s h =
      rw
        (
          transmit_frame c payload counter timestamp_ms fault now_ms state s,
          damage_frame_left fault _ h,
        )
        (check_payload-serialize c _ payload now_ms state s.valid
          (sealed_header-InRange c payload counter timestamp_ms fault s) (omega (arith, s.size)))

  -- Only a flipped identifier is not the configured one.
  pub sealed-Genuine :
      (fault : FaultInjectionMode)
      → (sealed_header c payload counter timestamp_ms fault).data_id ≡ c.data_id
      → effective_counter c counter fault ≤ max_counter_value c.counter_bits
      → Genuine c (sealed fault)
  sealed-Genuine fault e h = record {
    profile = same_profile_self c.profile;
    data_id = e;
    counter = h;
    crc = ap calculate_crc32 (crc_material_lem _ _ payload);
  }

  -- For a payload that can be sent: a frame without an injected fault that arrives within the time
  -- limit, at a receiver that expects its counter or keeps no state, is accepted with its payload,
  -- and a receiver with a state notes its counter and time.
  pub transmit_accepted :
      (now_ms : ℕ) (state : Option ReceiverState)
      → Sendable c payload counter timestamp_ms
      → now_ms ≤ timestamp_ms + c.timeout_ms
      → expects c counter state ≡ true
      → transmit c payload counter timestamp_ms FaultInjectionMode.none now_ms state ≡ (
        after_acceptance
            (sealed_header c payload counter timestamp_ms FaultInjectionMode.none)
            state,
        from_value (
            make_checked c CheckStatus.ok true
              (sealed_header c payload counter timestamp_ms FaultInjectionMode.none)
              payload),
      )
  transmit_accepted now_ms state s h e =
      rw
        (
          transmit_left FaultInjectionMode.none now_ms state s refl,
          check_parsed_timely c (sealed FaultInjectionMode.none) now_ms state
              (sealed-Genuine FaultInjectionMode.none refl s.counter) h,
          check_state_expected c (sealed FaultInjectionMode.none) state e,
        )
        refl
