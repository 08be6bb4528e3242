-- ===== src/SomeIp/Transfer.antt =====
-- A sender and a receiver at the two ends of a stream (tcp_stream.cpp).
use mathlib.Core.List.{append_assoc, append-nil}
use open_autosar.Base.{
  ℕ, zero, suc, ◌+◌, ◌<◌, ◌≤◌, ◌≡◌, refl, ap, sym, ◌∙◌, List, [], ◌∷◌, ◌++◌, length, length-append,
  take, drop, take-append-drop, length-drop, Option, none, some, All, map, arith, Result,
  from_value,
}
use open_autosar.SomeIp.{Message}
use open_autosar.SomeIp.Messages.{message_bytes, serialize_message}
use open_autosar.SomeIp.RoundTrip.{InRange}
use open_autosar.SomeIp.Stream.{Sent, Socket, write_all, send_open, receive_open}
use open_autosar.SomeIp.Delivery.{Delivers, receive_open_lem, positive}

-- What `send` does on a stream without errors: it is interrupted, which happens finitely often, or
-- takes at least one of the bytes and appends what it takes to what is on its way.
abbrev pub Gives : {S : Type 0} → (S → List ℕ) → (S → ℕ) → S → List ℕ → S → Sent → Type 0
Gives outgoing pauses s source t (Sent.failed _) = ⊥
Gives outgoing pauses s source t Sent.interrupted =
    (outgoing t ≡ outgoing s) × (suc (pauses t) ≤ pauses s)
Gives outgoing pauses s source t (Sent.taken n) =
    (outgoing t ≡ outgoing s ++ take n source)
    × (0 < n)
    × (n ≤ length source)
    × (pauses t ≤ pauses s)

-- A socket that takes what it is given.
pub record Accepts {S : Type 0} (socket : Socket S) (outgoing : S → List ℕ) (pauses : S → ℕ)
    : Type 0 where
  pub gives :
      (s : S) (source : List ℕ)
      → 0 < length source
      → Gives outgoing pauses s source (socket.send s source).0 (socket.send s source).1

-- A message that `SerializeMessage` writes.
pub record CanSend (m : Message) : Type 0 where
  pub written : serialize_message m ≡ from_value (message_bytes m)
  pub fields : InRange m

-- The bytes of a sequence of messages.
abbrev pub frames : List Message → List ℕ
frames [] = []
frames (m ∷ ms) = message_bytes m ++ frames ms

module _ {S : Type 0} (socket : Socket S) where
  unfoldable pub send_each : ℕ → S → List Message → Option (S × List (Result ℕ))
  send_each fuel s [] = some (s, [])
  send_each fuel s (m ∷ ms) = elim (send_open socket fuel s m) [
    | none ↦ none
    | some (t, r) ↦ elim (send_each fuel t ms) [ none ↦ none | some (u, rs) ↦ some (u, r ∷ rs) ]
  ]

  unfoldable pub receive_each : ℕ → S → ℕ → Option (S × List (Result Message))
  receive_each fuel s zero = some (s, [])
  receive_each fuel s (suc n) = elim (receive_open socket fuel s) [
    | none ↦ none
    | some (t, r) ↦ elim (receive_each fuel t n) [ none ↦ none | some (u, rs) ↦ some (u, r ∷ rs) ]
  ]

module _ {S : Type 0} (socket : Socket S) (outgoing : S → List ℕ) (pauses : S → ℕ)
    (accepts : Accepts socket outgoing pauses) where
  abbrev Writes : ℕ → S → List ℕ → ℕ → Type 0
  Writes fuel s source total =
      (t : S) × (write_all socket fuel s source total ≡ some (t, from_value total))
      × (outgoing t ≡ outgoing s ++ source)
      × (pauses t ≤ pauses s)

  write_all_step :
      (fuel : ℕ) (s t : S) (r : Sent) (source : List ℕ) (total : ℕ)
      → socket.send s source ≡ (t, r)
      → Gives outgoing pauses s source t r
      → 0 < length source
      → length source + pauses s < suc fuel
      → ((u : S) (rest : List ℕ) → length rest + pauses u < fuel → Writes fuel u rest total)
      → Writes (suc fuel) s source total
  unfolding write_all
  write_all_step fuel s t (Sent.failed _) source total call gives p f ih = elim gives [ ]
  write_all_step fuel s t Sent.interrupted source total call gives p f ih =
      let (u, g, same, fewer) = ih t source (omega (arith, gives.1)) in
      (
        u,
        rw (write_all, positive (length source) p, call, call) g,
        same ∙ ap (λ xs. xs ++ source) gives.0,
        omega (arith, fewer, gives.1),
      )
  write_all_step fuel s t (Sent.taken n) source total call gives p f ih =
      let size : length (drop n source) + n ≡ length source = length-drop n source gives.2 in
      let (u, g, same, fewer) = ih t (drop n source) (omega (arith, gives.1, gives.3)) in
      (
        u,
        rw (write_all, positive (length source) p, call, positive n gives.1, call) g,
        same
            ∙ ap (λ xs. xs ++ drop n source) gives.0
            ∙ append_assoc (outgoing s) (take n source) (drop n source)
            ∙ ap (λ xs. outgoing s ++ xs) (take-append-drop n source),
        omega (arith, fewer, gives.3),
      )

  -- With fuel for each byte and each interruption, `WriteAll` writes all bytes.
  write_all_lem :
      (fuel : ℕ) (s : S) (source : List ℕ) (total : ℕ)
      → length source + pauses s < fuel
      → Writes fuel s source total
  unfolding write_all
  write_all_lem zero s source total f = absurd (omega arith)
  write_all_lem (suc fuel) s [] total f = (s, refl, sym (append-nil (outgoing s)), omega arith)
  write_all_lem (suc fuel) s (x ∷ xs) total f =
      write_all_step fuel s (socket.send s (x ∷ xs)).0 (socket.send s (x ∷ xs)).1 (x ∷ xs) total
        refl (accepts.gives s (x ∷ xs) (omega arith)) (omega arith) f
        λ u rest. write_all_lem fuel u rest total

  send_each_lem :
      (fuel : ℕ) (s : S) (ms : List Message)
      → All CanSend ms
      → length (frames ms) + pauses s < fuel
      → (t : S) × (send_each socket fuel s ms
          ≡ some (t, map (λ m. from_value (length (message_bytes m))) ms))
        × (outgoing t ≡ outgoing s ++ frames ms)
        × (pauses t ≤ pauses s)
  unfolding send_each send_open
  send_each_lem fuel s [] a f = (s, refl, sym (append-nil (outgoing s)), omega arith)
  send_each_lem fuel s (m ∷ ms) (c, a) f =
      let bytes = message_bytes m in
      let size : length (bytes ++ frames ms) ≡ length bytes + length (frames ms) =
        length-append bytes (frames ms) in
      let (t, g, o, fewer) = write_all_lem fuel s bytes (length bytes) (omega arith) in
      let (u, k, p, less) = send_each_lem fuel t ms a (omega arith) in
      (
        u,
        rw (send_each, send_open, c.written, g, k) refl,
        p ∙ ap (λ xs. xs ++ frames ms) o ∙ append_assoc (outgoing s) bytes (frames ms),
        omega arith,
      )

module _ {S : Type 0} (socket : Socket S) (incoming : S → List ℕ) (pauses : S → ℕ)
    (delivers : Delivers socket incoming pauses) where
  receive_each_lem :
      (fuel : ℕ) (s : S) (ms : List Message)
      → All CanSend ms
      → incoming s ≡ frames ms
      → length (frames ms) + pauses s < fuel
      → (t : S) × (receive_each socket fuel s (length ms) ≡ some (t, map from_value ms))
  unfolding receive_each
  receive_each_lem fuel s [] a e f = (s, refl)
  receive_each_lem fuel s (m ∷ ms) (c, a) e f =
      let bytes = message_bytes m in
      let size : length (bytes ++ frames ms) ≡ length bytes + length (frames ms) =
        length-append bytes (frames ms) in
      let (t, g, i, fewer) =
        receive_open_lem socket incoming pauses delivers fuel s m bytes (frames ms) c.written
          c.fields e (omega arith) in
      let (u, k) = receive_each_lem fuel t ms a i (omega arith) in (u, rw (receive_each, g, k) refl)

-- Messages that can be sent, over a stream whose calls take and deliver the bytes in any pieces and
-- are interrupted finitely often: with fuel for each byte and each interruption, all of them are
-- sent, as the bytes that come to the receiver, and a receiver to which the bytes of these messages
-- come receives just these messages in their order, wherever the pieces are cut.
pub receive_each-send_each :
    {S T : Type 0} (sender : Socket S) (receiver : Socket T) (outgoing : S → List ℕ)
    (incoming : T → List ℕ) (waits : S → ℕ) (pauses : T → ℕ) (fuel : ℕ) (s : S) (t : T)
    (ms : List Message)
    → Accepts sender outgoing waits
    → Delivers receiver incoming pauses
    → All CanSend ms
    → outgoing s ≡ []
    → incoming t ≡ frames ms
    → length (frames ms) + waits s < fuel
    → length (frames ms) + pauses t < fuel
    → (s' : S) × (t' : T) × (send_each sender fuel s ms
        ≡ some (s', map (λ m. from_value (length (message_bytes m))) ms))
      × (outgoing s' ≡ incoming t)
      × (receive_each receiver fuel t (length ms) ≡ some (t', map from_value ms))
receive_each-send_each sender receiver outgoing incoming waits pauses fuel s t ms a d c e i f g =
    let (s', sent, o, _) = send_each_lem sender outgoing waits a fuel s ms c f in
    let (t', got) = receive_each_lem receiver incoming pauses d fuel t ms c i g in
    (s', t', sent, o ∙ ap (λ xs. xs ++ frames ms) e ∙ sym i, got)
