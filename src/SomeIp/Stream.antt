-- ===== src/SomeIp/Stream.antt =====
-- tcp_stream.cpp: messages over a stream of bytes. The calls of the operating system are a parameter;
-- a connection is `none` once its descriptor is closed or moved away. The loops of `ReadExact` and
-- `WriteAll` take fuel, and `none` means that it has run out.
use Prim.Native.String.{◌++◌ as str_append}
use open_autosar.Base.{
  ℕ, zero, suc, ◌-◌, ◌==◌, ltb, true, false, String, List, [], ◌++◌, length, drop, Option, none,
  some, if◌then◌else◌, Result, from_value, from_error, ErrorCode,
}
use open_autosar.SomeIp.{header_size, length_base, max_udp_payload_size, Message}
use open_autosar.SomeIp.Bytes.{read_u32}
use open_autosar.SomeIp.Messages.{serialize_message, deserialize_message}

-- What `recv` returns: an error and its text, `EINTR`, zero, or bytes.
pub data Received : Type 0 where
  failed : String → Received
  interrupted closed : Received
  received : List ℕ → Received

-- What `send` returns: an error and its text, `EINTR`, or the count of bytes that it has taken.
pub data Sent : Type 0 where
  failed : String → Sent
  interrupted : Sent
  taken : ℕ → Sent

-- `recv` with the room that is left, and `send` with the bytes that are left.
pub record Socket (S : Type 0) : Type 0 where
  pub recv : S → ℕ → S × Received
  pub send : S → List ℕ → S × Sent

abbrev pub make_error : String → ErrorCode
make_error message = record { domain = "someip-tcp"; message = message }

-- `errno_text` is what `strerror` says.
abbrev pub make_errno_error : String → String → ErrorCode
make_errno_error message errno_text = make_error (str_append message (str_append ": " errno_text))

module _ {S : Type 0} where
  -- The outcome of a loop that has read the first bytes already.
  abbrev pub prepend : List ℕ → Option (S × Result (List ℕ)) → Option (S × Result (List ℕ))
  prepend bytes none = none
  prepend bytes (some (s, from_error e)) = some (s, from_error e)
  prepend bytes (some (s, from_value rest)) = some (s, from_value (bytes ++ rest))

module _ {S : Type 0} (socket : Socket S) where
  unfoldable pub read_exact : ℕ → S → ℕ → String → Option (S × Result (List ℕ))
  read_exact zero s missing operation = none
  read_exact (suc fuel) s missing operation = elim (missing == 0) [
    | true ↦ some (s, from_value [])
    | false ↦ elim (socket.recv s missing).1 [
      | failed text ↦ some ((socket.recv s missing).0, from_error (make_errno_error operation text))
      | interrupted ↦ read_exact fuel (socket.recv s missing).0 missing operation
      | closed ↦ some (
        (socket.recv s missing).0,
        from_error (make_error "TCP peer closed while receiving SOME/IP frame"),
      )
      | received bytes ↦
          prepend bytes
            (read_exact fuel (socket.recv s missing).0 (missing - length bytes) operation)
    ]
  ]

  -- `total` is the size of the whole source.
  unfoldable pub write_all : ℕ → S → List ℕ → ℕ → Option (S × Result ℕ)
  write_all zero s source total = none
  write_all (suc fuel) s source total = elim (length source == 0) [
    | true ↦ some (s, from_value total)
    | false ↦ elim (socket.send s source).1 [
      | failed text ↦ some (
        (socket.send s source).0,
        from_error (make_errno_error "failed to send TCP SOME/IP frame" text),
      )
      | interrupted ↦ write_all fuel (socket.send s source).0 source total
      | taken n ↦ elim (n == 0) [
        | true ↦ some (
          (socket.send s source).0,
          from_error (make_error "TCP peer closed while sending SOME/IP frame"),
        )
        | false ↦ write_all fuel (socket.send s source).0 (drop n source) total
      ]
    ]
  ]

  -- `TcpConnection::Send` on an open connection.
  unfoldable pub send_open : ℕ → S → Message → Option (S × Result ℕ)
  send_open fuel s message = elim (serialize_message message) [
    | from_error e ↦ some (s, from_error e)
    | from_value bytes ↦ write_all fuel s bytes (length bytes)
  ]

  unfoldable pub send : ℕ → Option S → Message → Option (Option S × Result ℕ)
  send fuel none message = some (none, from_error (make_error "connection is closed"))
  send fuel (some s) message = elim (send_open fuel s message) [
    | none ↦ none
    | some (t, r) ↦ some (some t, r)
  ]

  -- `TcpConnection::Receive` once the payload is read.
  abbrev pub after_payload : List ℕ → Option (S × Result (List ℕ)) → Option (S × Result Message)
  after_payload header none = none
  after_payload header (some (s, from_error e)) = some (s, from_error e)
  after_payload header (some (s, from_value payload)) =
      some (s, deserialize_message (header ++ payload))

  -- `TcpConnection::Receive` once the header is read.
  unfoldable pub after_header : ℕ → Option (S × Result (List ℕ)) → Option (S × Result Message)
  after_header fuel none = none
  after_header fuel (some (s, from_error e)) = some (s, from_error e)
  after_header fuel (some (s, from_value bytes)) =
      let length_field = read_u32 bytes 4 in
      if ltb length_field length_base
      then some (s, from_error (make_error "invalid SOME/IP length field"))
      else if ltb (max_udp_payload_size - header_size) (length_field - length_base)
      then some (s, from_error (make_error "TCP SOME/IP frame exceeds configured payload limit"))
      else after_payload bytes
          (read_exact fuel s (length_field - length_base) "failed to receive TCP SOME/IP payload")

  -- `TcpConnection::Receive` on an open connection.
  unfoldable pub receive_open : ℕ → S → Option (S × Result Message)
  unfolding after_header
  receive_open fuel s =
      after_header fuel (read_exact fuel s header_size "failed to receive TCP SOME/IP header")

  unfoldable pub receive : ℕ → Option S → Option (Option S × Result Message)
  receive fuel none = some (none, from_error (make_error "connection is closed"))
  receive fuel (some s) = elim (receive_open fuel s) [
    | none ↦ none
    | some (t, r) ↦ some (some t, r)
  ]
