-- ===== src/SomeIp/Examples.antt =====
-- Tests of the SOME/IP protocol, and its theorems at concrete inputs.
use open_autosar.Base.{
  ℕ, zero, suc, ◌≤◌, ◌<◌, ◌≡◌, refl, List, [], ◌∷◌, ◌++◌, length, take, some, map, arith,
  from_value,
}
use open_autosar.SomeIp.{MessageType, ReturnCode, RequestId, Message}
use open_autosar.SomeIp.Messages.{
  fits_udp_payload, message_bytes, serialize_message, deserialize_message,
}
use open_autosar.SomeIp.RoundTrip.{InRange, deserialize_message-serialize_message}
use open_autosar.SomeIp.Correlation.{new}
use open_autosar.SomeIp.Completion.{
  Call, allocates, completes, expires, run, allocations, completions, InBounds, run_completed,
}
use open_autosar.SomeIp.Discovery.{
  EntryType, ServiceDiscoveryMessage, entry_bytes, serialize_entries, sd_header_bytes,
  serialize_service_discovery_payload, build_service_discovery_message,
}
use open_autosar.SomeIp.Announcement.{announce, receive_announcement, receive_announcement-announce}
use open_autosar.SomeIp.Stream.{Received, Sent, Socket}
use open_autosar.SomeIp.Delivery.{Takes, Delivers}
use open_autosar.SomeIp.Transfer.{
  Gives, Accepts, frames, send_each, receive_each, receive_each-send_each,
}

abbrev message : Message
message = record {
  header = record {
    message_id = record { service_id = 0x1234; method_id = 0x8001 };
    request_id = record { client_id = 7; session_id = 1 };
    protocol_version = 1;
    interface_version = 2;
    message_type = MessageType.response;
    return_code = ReturnCode.ok;
  };
  payload = 1 ∷ 2 ∷ 3 ∷ [];
}

message-InRange : InRange message
message-InRange = record {
  service_id = omega arith;
  method_id = omega arith;
  client_id = omega arith;
  session_id = omega arith;
}

written : serialize_message message ≡ from_value (message_bytes message)
unfolding serialize_message fits_udp_payload
written = refl

deserialize_message-serialize_message_example :
    deserialize_message (message_bytes message) ≡ from_value message
deserialize_message-serialize_message_example =
    deserialize_message-serialize_message message (message_bytes message) message-InRange written

abbrev id : RequestId
id = record { client_id = 7; session_id = 1 }

abbrev calls : List Call
calls =
    allocates 7 (record { service_id = 5; method_id = 6 }) 100 50
    ∷ completes id (record { service_id = 5; method_id = 6 }) 120
    ∷ completes id (record { service_id = 5; method_id = 6 }) 130
    ∷ expires 200
    ∷ []

run_completed_example :
    (completions id (new 4) calls ≤ allocations id (new 4) calls) × InBounds (run (new 4) calls)
run_completed_example =
    run_completed 4 id calls (omega arith) (omega arith, (omega arith, (omega arith, (tt, tt))))

abbrev discovery : ServiceDiscoveryMessage
discovery = record {
  reboot_session = 9;
  entries =
      record {
        type = EntryType.offer_service;
        service_id = 0x1234;
        instance_id = 1;
        major_version = 1;
        ttl = 3600;
        minor_version = 2;
        eventgroup_id = 0;
      }
      ∷ [];
}

abbrev datagram : List ℕ
datagram = message_bytes (record {
  header = record {
    message_id = record { service_id = 0xFFFF; method_id = 0x8100 };
    request_id = id;
    protocol_version = 1;
    interface_version = 1;
    message_type = MessageType.notification;
    return_code = ReturnCode.ok;
  };
  payload =
      0 ∷ 0 ∷ 0 ∷ 9 ∷ 0 ∷ 0 ∷ 0 ∷ 16 ∷ 1 ∷ 0 ∷ 0x12 ∷ 0x34 ∷ 0 ∷ 1 ∷ 1 ∷ 0 ∷ 0x0E ∷ 0x10 ∷ 0 ∷ 0 ∷ 0
      ∷ 2 ∷ 0 ∷ 0 ∷ [];
})

announced : announce discovery id ≡ from_value datagram
unfolding announce build_service_discovery_message serialize_service_discovery_payload
    serialize_entries sd_header_bytes entry_bytes serialize_message fits_udp_payload message_bytes
announced = refl

receive_announcement-announce_example : receive_announcement datagram ≡ from_value discovery
receive_announcement-announce_example =
    receive_announcement-announce discovery id datagram (omega arith)
      (
        record {
          service_id = omega arith;
          instance_id = omega arith;
          minor_version = omega arith;
          eventgroup_id = omega arith;
        },
        tt,
      )
      (omega arith) (omega arith) announced

-- The two ends of a stream that passes one byte at a time, after some interruptions.
abbrev Pipe : Type 0
Pipe = List ℕ × ℕ

pipe_recv : Pipe → ℕ → Pipe × Received
pipe_recv (bytes, suc k) n = ((bytes, k), Received.interrupted)
pipe_recv ([], zero) n = (([], zero), Received.closed)
pipe_recv (b ∷ bytes, zero) n = ((bytes, zero), Received.received (b ∷ []))

pipe_send : Pipe → List ℕ → Pipe × Sent
pipe_send (bytes, suc k) source = ((bytes, k), Sent.interrupted)
pipe_send (bytes, zero) source = ((bytes ++ take 1 source, zero), Sent.taken 1)

abbrev pipe : Socket Pipe
pipe = record { recv = pipe_recv; send = pipe_send }

pipe-Delivers : Delivers pipe (λ p. p.0) (λ p. p.1)
unfolding pipe_recv
pipe-Delivers = record { takes = takes }
  where
    takes :
        (s : Pipe) (room : ℕ)
        → 0 < room
        → room ≤ length (s.0)
        → Takes (λ p. p.0) (λ p. p.1) s room (pipe_recv s room).0 (pipe_recv s room).1
    takes (bytes, suc k) room p h = (refl, omega arith)
    takes ([], zero) room p h = absurd (omega arith)
    takes (b ∷ bytes, zero) room p h = (refl, omega arith, omega arith, omega arith)

pipe-Accepts : Accepts pipe (λ p. p.0) (λ p. p.1)
unfolding pipe_send
pipe-Accepts = record { gives = gives }
  where
    gives :
        (s : Pipe) (source : List ℕ)
        → 0 < length source
        → Gives (λ p. p.0) (λ p. p.1) s source (pipe_send s source).0 (pipe_send s source).1
    gives (bytes, suc k) source h = (refl, omega arith)
    gives (bytes, zero) source h = (refl, omega arith, omega arith, omega arith)

receive_each-send_each_example :
    (s' t' : Pipe) × (send_each pipe 100 ([], 2) (message ∷ message ∷ [])
      ≡ some (s', map (λ m. from_value (length (message_bytes m))) (message ∷ message ∷ [])))
    × (s'.0 ≡ frames (message ∷ message ∷ []))
    × (receive_each pipe 100 (frames (message ∷ message ∷ []), 3) 2
        ≡ some (t', map from_value (message ∷ message ∷ [])))
unfolding message_bytes
receive_each-send_each_example =
    receive_each-send_each pipe pipe (λ p. p.0) (λ p. p.0) (λ p. p.1) (λ p. p.1) 100 ([], 2)
      (frames (message ∷ message ∷ []), 3) (message ∷ message ∷ []) pipe-Accepts pipe-Delivers
      (
        record { written = written; fields = message-InRange },
        (record { written = written; fields = message-InRange }, tt),
      )
      refl refl (omega arith) (omega arith)
