-- ===== src/E2e/Acceptance.antt =====
-- What `CheckPayload` asks of the frames that it accepts (e2e_protection.cpp).
use open_autosar.Base.{
  ℕ, ◌+◌, ◌≤◌, ◌≡◌, refl, ap, sym, ◌∙◌, ◌==◌, leb, Bool, true, false, ◌&&◌, ◌||◌, List, Option,
  none, some, arith, from_value, inl, inr, ◌⊎◌,
}
use open_autosar.E2e.{CheckStatus, ProfileConfig, ReceiverState, CheckedPayload}
use open_autosar.E2e.Frame.{ParseResult, parse_protected_frame}
use open_autosar.E2e.Check.{
  count_repetition, check_sequence, check_state, check_parsed, parsed_ok, check_payload,
}
use open_autosar.E2e.Detection.{Genuine, in_sequence}

-- A counter that a receiver lets pass: the next ones, or the last one a few times more.
abbrev pub passes : ProfileConfig → ℕ → ReceiverState → Bool
passes c n s =
    in_sequence c n s
    || (n == s.last_counter && leb (count_repetition s.repetition_count) c.max_repetitions)

abbrev pub passes_state : ProfileConfig → ℕ → Option ReceiverState → Bool
passes_state c n none = true
passes_state c n (some s) = passes c n s

check_sequence_accepted :
    (c : ProfileConfig) (p : ParseResult) (s : ReceiverState)
    → (check_sequence c p s).1.accepted ≡ true
    → passes c p.header.counter s ≡ true
unfolding check_sequence
check_sequence_accepted c p s h = ground arith

check_sequence_header :
    (c : ProfileConfig) (p : ParseResult) (s : ReceiverState)
    → ((check_sequence c p s).1.header ≡ p.header) × ((check_sequence c p s).1.payload ≡ p.payload)
unfolding check_sequence
check_sequence_header c p s = ground arith

check_state_accepted :
    (c : ProfileConfig) (p : ParseResult) (s : Option ReceiverState)
    → (check_state c p s).1.accepted ≡ true
    → passes_state c p.header.counter s ≡ true
unfolding check_state
check_state_accepted c p none h = refl
check_state_accepted c p (some s) h = check_sequence_accepted c p s h

check_state_header :
    (c : ProfileConfig) (p : ParseResult) (s : Option ReceiverState)
    → ((check_state c p s).1.header ≡ p.header) × ((check_state c p s).1.payload ≡ p.payload)
unfolding check_state
check_state_header c p none = (refl, refl)
check_state_header c p (some s) = check_sequence_header c p s

-- All that acceptance requires of the parsed frame.
pub record Acceptable (c : ProfileConfig) (p : ParseResult) (now_ms : ℕ) (s : Option ReceiverState)
    : Type 0 where
  pub genuine : Genuine c p
  pub timely : now_ms ≤ p.header.timestamp_ms + c.timeout_ms
  pub passes : passes_state c p.header.counter s ≡ true

check_parsed_accepted :
    (c : ProfileConfig) (p : ParseResult) (now_ms : ℕ) (s : Option ReceiverState)
    → (check_parsed c p now_ms s).1.accepted ≡ true
    → Genuine c p
      × (now_ms ≤ p.header.timestamp_ms + c.timeout_ms)
      × (check_parsed c p now_ms s ≡ check_state c p s)
unfolding check_parsed
check_parsed_accepted c p now_ms s h = ground arith

-- A rejected frame may count as a repetition, and changes nothing else.
abbrev pub SameSequence : Option ReceiverState → Option ReceiverState → Type 0
SameSequence none none = Unit {0}
SameSequence (some s) (some t) =
    (s.initialized ≡ t.initialized)
    × (s.last_counter ≡ t.last_counter)
    × (s.last_timestamp_ms ≡ t.last_timestamp_ms)
SameSequence _ _ = ⊥

SameSequence-refl : (s : Option ReceiverState) → SameSequence s s
SameSequence-refl none = tt
SameSequence-refl (some s) = (refl, refl, refl)

check_state_rejected :
    (c : ProfileConfig) (p : ParseResult) (s : Option ReceiverState)
    → (check_state c p s).1.accepted ≡ false
    → SameSequence s (check_state c p s).0
unfolding check_state check_sequence
check_state_rejected c p none h = ground arith
check_state_rejected c p (some s) h = ground arith

check_parsed_rejected :
    (c : ProfileConfig) (p : ParseResult) (now_ms : ℕ) (s : Option ReceiverState)
    → (check_parsed c p now_ms s).1.accepted ≡ false
    → ((check_parsed c p now_ms s).0 ≡ s) ⊎ (check_parsed c p now_ms s ≡ check_state c p s)
unfolding check_parsed
check_parsed_rejected c p now_ms s h = ground arith

parsed_ok_lem : (status : CheckStatus) → parsed_ok status ≡ true → status ≡ CheckStatus.ok
parsed_ok_lem CheckStatus.ok h = refl
parsed_ok_lem _ h = absurd (ground arith)

-- The two ways out of `CheckPayload` with a result.
check_payload_result :
    (c : ProfileConfig) (frame : List ℕ) (now_ms : ℕ) (s : Option ReceiverState)
    (r : CheckedPayload)
    → (check_payload c frame now_ms s).1 ≡ from_value r
    → ((parsed_ok (parse_protected_frame frame).status ≡ true)
        × (r ≡ (check_parsed c (parse_protected_frame frame) now_ms s).1)
        × ((check_payload c frame now_ms s).0
            ≡ (check_parsed c (parse_protected_frame frame) now_ms s).0))
      ⊎ ((r.accepted ≡ false) × ((check_payload c frame now_ms s).0 ≡ s))
unfolding check_payload
check_payload_result c frame now_ms s r h = ground arith

-- A frame that `CheckPayload` accepts has been parsed without an error into the header and payload
-- that it returns; its profile, identifier and counter are the configured ones, its checksum is that of its
-- contents, it is within the time limit, and its counter is one of the next ones for the receiver
-- or, within the configured repetitions, the last one.
pub check_payload_accepted :
    (c : ProfileConfig) (frame : List ℕ) (now_ms : ℕ) (s : Option ReceiverState)
    (r : CheckedPayload)
    → (check_payload c frame now_ms s).1 ≡ from_value r
    → r.accepted ≡ true
    → ((parse_protected_frame frame).status ≡ CheckStatus.ok)
      × (r.header ≡ (parse_protected_frame frame).header)
      × (r.payload ≡ (parse_protected_frame frame).payload)
      × Acceptable c (parse_protected_frame frame) now_ms s
check_payload_accepted c frame now_ms s r h a = elim (check_payload_result c frame now_ms s r h) [
  | inl (parsed, e, _) ↦
      let p = parse_protected_frame frame in
      let (g, t, same) =
        check_parsed_accepted c p now_ms s (sym (ap (λ (x : CheckedPayload). x.accepted) e) ∙ a) in
      let judged : r ≡ (check_state c p s).1 = e ∙ ap (λ x. x.1) same in
      let (eh, ep) = check_state_header c p s in
      (
        parsed_ok_lem p.status parsed,
        ap (λ (x : CheckedPayload). x.header) judged ∙ eh,
        ap (λ (x : CheckedPayload). x.payload) judged ∙ ep,
        record {
          genuine = g;
          timely = t;
          passes =
              check_state_accepted c p s (sym (ap (λ (x : CheckedPayload). x.accepted) judged) ∙ a);
        },
      )
  | inr (e, _) ↦ ground arith
]

-- A frame for which `CheckPayload` returns a result that is not accepted leaves the counter, the
-- time and the initialisation in the receiver's state as they were.
pub check_payload_rejected :
    (c : ProfileConfig) (frame : List ℕ) (now_ms : ℕ) (s : Option ReceiverState)
    (r : CheckedPayload)
    → (check_payload c frame now_ms s).1 ≡ from_value r
    → r.accepted ≡ false
    → SameSequence s (check_payload c frame now_ms s).0
check_payload_rejected c frame now_ms s r h a = elim (check_payload_result c frame now_ms s r h) [
  | inl (_, e, f) ↦
      let p = parse_protected_frame frame in
      let b : (check_parsed c p now_ms s).1.accepted ≡ false =
        sym (ap (λ (x : CheckedPayload). x.accepted) e) ∙ a in
      rw f (elim (check_parsed_rejected c p now_ms s b) [
        | inl same ↦ rw same (SameSequence-refl s)
        | inr same ↦ rw same (check_state_rejected c p s (sym (ap (λ x. x.1.accepted) same) ∙ b))
      ])
  | inr (_, f) ↦ rw f (SameSequence-refl s)
]
