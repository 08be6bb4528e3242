-- ===== src/SomeIp/Delivery.antt =====
-- Messages over a stream that is cut into pieces and interrupted (tcp_stream.cpp).
use open_autosar.Base.{
  ℕ, zero, suc, ◌+◌, ◌-◌, ◌<◌, ◌≤◌, ◌≡◌, refl, ap, sym, ◌∙◌, ◌==◌, ltb, false, String, List, [],
  ◌∷◌, ◌++◌, length, length-append, drop, some, arith, from_value,
}
use mathlib.Core.List.{append_assoc}
use open_autosar.SomeIp.{Message, length_base, message_type_value, return_code_value}
use open_autosar.SomeIp.Bytes.{u16_bytes, u32_bytes, read_u32, u32_lem}
use open_autosar.SomeIp.Messages.{
  message_bytes, fits_udp_payload, serialize_message, deserialize_message,
}
use open_autosar.SomeIp.RoundTrip.{InRange, deserialize_message-serialize_message}
use open_autosar.SomeIp.Stream.{Received, Socket, read_exact, after_header, receive_open}

module _ {S : Type 0} (incoming : S → List ℕ) (pauses : S → ℕ) where
  -- What `recv` does while bytes are to come: it is interrupted, which happens finitely often, or
  -- takes at least one of the next bytes and no more than there is room for.
  abbrev pub Takes : S → ℕ → S → Received → Type 0
  Takes s room t (Received.failed _) = ⊥
  Takes s room t Received.closed = ⊥
  Takes s room t Received.interrupted = (incoming t ≡ incoming s) × (suc (pauses t) ≤ pauses s)
  Takes s room t (Received.received bytes) =
      (bytes ++ incoming t ≡ incoming s)
      × (0 < length bytes)
      × (length bytes ≤ room)
      × (pauses t ≤ pauses s)

-- A socket that delivers what is to come: the documented behaviour of `recv` on a stream without
-- errors.
pub record Delivers {S : Type 0} (socket : Socket S) (incoming : S → List ℕ) (pauses : S → ℕ)
    : Type 0 where
  pub takes :
      (s : S) (room : ℕ)
      → 0 < room
      → room ≤ length (incoming s)
      → Takes incoming pauses s room (socket.recv s room).0 (socket.recv s room).1

pub positive : (n : ℕ) → 0 < n → (n == 0) ≡ false
positive n h = ground arith

append_split :
    (xs ys front back : List ℕ)
    → xs ++ ys ≡ front ++ back
    → length xs ≤ length front
    → (rest : List ℕ) × (xs ++ rest ≡ front) × (ys ≡ rest ++ back)
append_split [] ys front back e h = (front, refl, e)
append_split (x ∷ xs) ys [] back e h = ground arith
append_split (x ∷ xs) ys (y ∷ front) back e h =
    let tails : xs ++ ys ≡ front ++ back = ap (drop 1) e in
    let heads : x ≡ y = cc in
    let (rest, f, g) = append_split xs ys front back tails (omega arith) in
    (rest, (λ i. heads i ∷ f i), g)

module _ {S : Type 0} (socket : Socket S) (incoming : S → List ℕ) (pauses : S → ℕ)
    (delivers : Delivers socket incoming pauses) where
  -- The bytes in front of those that stay, read by `ReadExact`.
  abbrev pub Reads : ℕ → S → ℕ → String → List ℕ → List ℕ → Type 0
  Reads fuel s n operation front back =
      (t : S) × (read_exact socket fuel s n operation ≡ some (t, from_value front))
      × (incoming t ≡ back)
      × (pauses t ≤ pauses s)

  read_exact_step :
      (fuel : ℕ) (s t : S) (n : ℕ) (r : Received) (front back : List ℕ) (operation : String)
      → socket.recv s n ≡ (t, r)
      → Takes incoming pauses s n t r
      → incoming s ≡ front ++ back
      → length front ≡ n
      → 0 < n
      → n + pauses s < suc fuel
      → ((u : S) (k : ℕ) (rest : List ℕ)
          → incoming u ≡ rest ++ back
          → length rest ≡ k
          → k + pauses u < fuel
          → Reads fuel u k operation rest back)
      → Reads (suc fuel) s n operation front back
  unfolding read_exact
  read_exact_step fuel s t n (Received.failed _) front back operation call takes e h p f ih =
      elim takes [ ]
  read_exact_step fuel s t n Received.closed front back operation call takes e h p f ih =
      elim takes [ ]
  read_exact_step fuel s t n Received.interrupted front back operation call takes e h p f ih =
      let (u, g, same, fewer) = ih t n front (takes.0 ∙ e) h (omega (arith, takes.1)) in
      (u, rw (read_exact, positive n p, call, call) g, same, omega (arith, fewer, takes.1))
  read_exact_step fuel s t n (Received.received bytes) front back operation call takes e h p f ih =
      let (rest, split, tail) =
        append_split bytes (incoming t) front back (takes.0 ∙ e) (omega (arith, takes.2)) in
      let size : length bytes + length rest ≡ n =
        sym (length-append bytes rest) ∙ ap length split ∙ h in
      let (u, g, same, fewer) =
        ih t (n - length bytes) rest tail (omega arith) (omega (arith, takes.1, takes.3)) in
      (
        u,
        rw (read_exact, positive n p, call, call, g) (ap (λ xs. some (u, from_value xs)) split),
        same,
        omega (arith, fewer, takes.3),
      )

  -- With fuel for each byte and each interruption, `ReadExact` reads just the bytes asked for.
  pub read_exact_lem :
      (fuel : ℕ) (s : S) (n : ℕ) (front back : List ℕ) (operation : String)
      → incoming s ≡ front ++ back
      → length front ≡ n
      → n + pauses s < fuel
      → Reads fuel s n operation front back
  unfolding read_exact
  read_exact_lem zero s n front back operation e h f = absurd (omega arith)
  read_exact_lem (suc fuel) s zero [] back operation e h f = (s, refl, e, omega arith)
  read_exact_lem (suc fuel) s zero (x ∷ front) back operation e h f = absurd (omega arith)
  read_exact_lem (suc fuel) s (suc n) front back operation e h f =
      let room : suc n ≤ length (incoming s) =
        omega (arith, ap length e, length-append front back) in
      read_exact_step fuel s (socket.recv s (suc n)).0 (suc n) (socket.recv s (suc n)).1 front back
        operation refl (delivers.takes s (suc n) (omega arith) room) e h (omega arith) f
        λ u k rest. read_exact_lem fuel u k rest back operation

-- The checks on the length field of a message that has been written.
small_field : (n : ℕ) → n ≤ 1384 → ltb (8 + n) 8 ≡ false
small_field n h = ground arith

large_field : (n : ℕ) → n ≤ 1384 → ltb 1384 n ≡ false
large_field n h = ground arith

-- The header of a written message, and what stands in it.
header_split :
    (m : Message)
    → length m.payload < 2000
    → (header : List ℕ) × (header ++ m.payload ≡ message_bytes m)
      × (length header ≡ 16)
      × (read_u32 header 4 ≡ 8 + length m.payload)
unfolding message_bytes
header_split m h = (
  u16_bytes m.header.message_id.service_id
      ++ u16_bytes m.header.message_id.method_id
      ++ u32_bytes (length_base + length m.payload)
      ++ u16_bytes m.header.request_id.client_id
      ++ u16_bytes m.header.request_id.session_id
      ++ (m.header.protocol_version
          ∷ m.header.interface_version
          ∷ message_type_value m.header.message_type
          ∷ return_code_value m.header.return_code
          ∷ []),
  refl,
  omega arith,
  u32_lem (length_base + length m.payload) (omega arith),
)

serialize_message_inv :
    (m : Message) (bytes : List ℕ)
    → serialize_message m ≡ from_value bytes
    → (message_bytes m ≡ bytes) × (length m.payload ≤ 1384)
unfolding serialize_message fits_udp_payload
serialize_message_inv m bytes h = (ground (arith, h), ground (arith, h))

module _ {S : Type 0} (socket : Socket S) (incoming : S → List ℕ) (pauses : S → ℕ)
    (delivers : Delivers socket incoming pauses) where
  -- A message at the front of what is to come is received, and what stands behind it stays.
  pub receive_open_lem :
      (fuel : ℕ) (s : S) (m : Message) (bytes back : List ℕ)
      → serialize_message m ≡ from_value bytes
      → InRange m
      → incoming s ≡ bytes ++ back
      → length bytes + pauses s < fuel
      → (t : S) × (receive_open socket fuel s ≡ some (t, from_value m))
        × (incoming t ≡ back)
        × (pauses t ≤ pauses s)
  unfolding receive_open after_header
  receive_open_lem fuel s m bytes back h r e f =
      let (same, small) = serialize_message_inv m bytes h in
      let (header, split, sixteen, field) = header_split m (omega arith) in
      let whole : header ++ m.payload ≡ bytes = split ∙ same in
      let size : length bytes ≡ 16 + length m.payload =
        omega (arith, ap length whole, length-append header m.payload) in
      let (t, g, i, fewer) =
        read_exact_lem socket incoming pauses delivers fuel s 16 header (m.payload ++ back)
          "failed to receive TCP SOME/IP header"
          (e ∙ ap (λ xs. xs ++ back) (sym whole) ∙ append_assoc header m.payload back) sixteen
          (omega arith) in
      let (u, k, j, less) =
        read_exact_lem socket incoming pauses delivers fuel t (length m.payload) m.payload back
          "failed to receive TCP SOME/IP payload" i refl (omega arith) in
      let back_again : deserialize_message (header ++ m.payload) ≡ from_value m =
        ap deserialize_message whole ∙ deserialize_message-serialize_message m bytes r h in
      let amount : 8 + length m.payload - 8 ≡ length m.payload = omega arith in
      (
        u,
        rw
            (
              receive_open,
              g,
              after_header,
              field,
              small_field (length m.payload) small,
              amount,
              large_field (length m.payload) small,
              k,
            )
            (ap (λ x. some (u, x)) back_again),
        j,
        omega arith,
      )
