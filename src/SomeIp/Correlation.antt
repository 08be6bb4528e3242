-- ===== src/SomeIp/Correlation.antt =====
-- request_correlation.cpp: the methods of `RequestCorrelator`.
use open_autosar.Base.{
  ℕ, ◌+◌, ◌*◌, ◌%◌, ◌^◌, ◌==◌, ltb, leb, not, ◌||◌, String, [], Option, none, some, length, u64,
  if◌then◌else◌, Result, from_value, from_error, ErrorCode, Table, find_key, put_key, keep_if,
  erase_key,
}
use open_autosar.SomeIp.{MessageId, RequestId, same_message_id}

pub record PendingRequest : Type 0 where
  pub request_id : RequestId
  pub message_id : MessageId
  pub deadline_ns : ℕ  -- uint64

pub record RequestCorrelator : Type 0 where
  pub capacity : ℕ  -- size_t
  pub next_session_id : ℕ  -- uint16
  pub pending : Table PendingRequest

abbrev pub make_error : String → ErrorCode
make_error message = record { domain = "someip-correlation"; message = message }

unfoldable pub new : ℕ → RequestCorrelator
new capacity = record { capacity = capacity; next_session_id = 1; pending = [] }

-- The shifted client has no bit in common with the session, so their `|` is their sum.
abbrev pub key_for : RequestId → ℕ
key_for r = r.client_id * 2 ^ 16 + r.session_id

-- `next_session_id_++`, and one in place of zero.
abbrev pub session_after : ℕ → ℕ
session_after n = if (n + 1) % 2 ^ 16 == 0 then 1 else (n + 1) % 2 ^ 16

abbrev pub new_request : RequestCorrelator → ℕ → RequestId
new_request m client_id = record { client_id = client_id; session_id = m.next_session_id }

-- The writes of `Allocate`.
abbrev pub add_request : RequestCorrelator → RequestId → MessageId → ℕ → RequestCorrelator
add_request m request_id message_id deadline_ns = record m {
  next_session_id = session_after m.next_session_id;
  pending =
      put_key (key_for request_id)
        (record { request_id = request_id; message_id = message_id; deadline_ns = deadline_ns })
        m.pending;
}

unfoldable pub allocate :
    RequestCorrelator → ℕ → MessageId → ℕ → ℕ → RequestCorrelator × Result RequestId
allocate m client_id message_id now_ns timeout_ns =
    if m.capacity == 0 || leb m.capacity (length m.pending)
    then (m, from_error (make_error "correlation table is full"))
    else if client_id == 0
    then (m, from_error (make_error "client id is zero"))
    else if message_id.service_id == 0
    then (m, from_error (make_error "service id is zero"))
    else if timeout_ns == 0
    then (m, from_error (make_error "timeout is zero"))
    else (
      add_request m (new_request m client_id) message_id (u64 (now_ns + timeout_ns)),
      from_value (new_request m client_id),
    )

-- `Complete` on what was found.
unfoldable pub complete_found :
    RequestCorrelator
    → ℕ
    → MessageId
    → ℕ
    → Option PendingRequest
    → RequestCorrelator × Result PendingRequest
complete_found m key message_id now_ns none =
    (m, from_error (make_error "request id is not pending"))
complete_found m key message_id now_ns (some p) =
    if not (same_message_id p.message_id message_id)
    then (m, from_error (make_error "message id does not match pending request"))
    else if ltb p.deadline_ns now_ns
    then (record m { pending = erase_key key m.pending }, from_error (make_error "request expired"))
    else (record m { pending = erase_key key m.pending }, from_value p)

unfoldable pub complete :
    RequestCorrelator → RequestId → MessageId → ℕ → RequestCorrelator × Result PendingRequest
complete m request_id message_id now_ns =
    complete_found m (key_for request_id) message_id now_ns
      (find_key (key_for request_id) m.pending)

unfoldable pub expire : RequestCorrelator → ℕ → RequestCorrelator
expire m now_ns = record m { pending = keep_if (λ _ p. not (ltb p.deadline_ns now_ns)) m.pending }

abbrev pub pending_count : RequestCorrelator → ℕ
pending_count m = length m.pending
