-- ===== src/SomeIp/Completion.antt =====
-- How often a request is completed (request_correlation.cpp).
use open_autosar.Base.{
  ℕ, ◌+◌, ◌<◌, ◌≤◌, ◌≡◌, refl, ap, ◌==◌, ==_iff, leb, Bool, true, false, not, ltb, ◌&&◌, All, List,
  [], ◌∷◌, Option, none, some, length, if◌then◌else◌, arith, Result, from_value, from_error,
  find_key, find_key-put_key, find_key-erase_key, find_key-keep_if, length-put_key,
  length-erase_key, length-keep_if, Option-cases, Bool-cases, u64, ErrorCode, ◌⊎◌, inl, inr, ◌||◌,
}
use open_autosar.SomeIp.{MessageId, RequestId}
use open_autosar.SomeIp.Correlation.{
  PendingRequest, RequestCorrelator, new, key_for, new_request, add_request, make_error, allocate,
  complete_found, complete, expire, pending_count,
}

-- The calls on a correlator.
pub data Call : Type 0 where
  allocates : ℕ → MessageId → ℕ → ℕ → Call
  completes : RequestId → MessageId → ℕ → Call
  expires : ℕ → Call

unfoldable pub step : RequestCorrelator → Call → RequestCorrelator
step m (allocates client message now timeout) = (allocate m client message now timeout).0
step m (completes request message now) = (complete m request message now).0
step m (expires now) = expire m now

unfoldable pub run : RequestCorrelator → List Call → RequestCorrelator
run m [] = m
run m (call ∷ calls) = run (step m call) calls

abbrev is_request : RequestId → RequestId → Bool
is_request r s = r.client_id == s.client_id && r.session_id == s.session_id

abbrev counts_id : RequestId → Result RequestId → ℕ
counts_id r (from_value s) = if is_request r s then 1 else 0
counts_id r (from_error _) = 0

abbrev counts_done : Result PendingRequest → ℕ
counts_done (from_value _) = 1
counts_done (from_error _) = 0

-- How often `Allocate` has returned a request, and `Complete` has completed it, in the calls.
unfoldable pub allocations : RequestId → RequestCorrelator → List Call → ℕ
allocations r m [] = 0
allocations r m (allocates client message now timeout ∷ calls) =
    counts_id r (allocate m client message now timeout).1
    + allocations r (step m (allocates client message now timeout)) calls
allocations r m (call ∷ calls) = allocations r (step m call) calls

unfoldable pub completions : RequestId → RequestCorrelator → List Call → ℕ
completions r m [] = 0
completions r m (completes s message now ∷ calls) =
    (if is_request r s then counts_done (complete m s message now).1 else 0)
    + completions r (step m (completes s message now)) calls
completions r m (call ∷ calls) = completions r (step m call) calls

-- The identifiers of a call fit their types.
abbrev pub FitsCall : Call → Type 0
FitsCall (allocates client message now timeout) = client < 65536
FitsCall (completes r message now) = r.session_id < 65536
FitsCall (expires now) = Unit {0}

key_for_inj :
    (r s : RequestId)
    → r.session_id < 65536
    → s.session_id < 65536
    → (key_for s == key_for r) ≡ is_request r s
key_for_inj r s h k = ground arith

-- The two outcomes of `Allocate`.
allocate_cases :
    (m : RequestCorrelator) (client : ℕ) (message : MessageId) (now timeout : ℕ)
    → ((e : ErrorCode) × (allocate m client message now timeout ≡ (m, from_error e)))
      ⊎ (allocate m client message now timeout ≡ (
        add_request m (new_request m client) message (u64 (now + timeout)),
        from_value (new_request m client),
      ))
unfolding allocate
allocate_cases m client message now timeout =
    elim (Bool-cases (m.capacity == 0 || leb m.capacity (length m.pending))) [
      | inl e ↦ inl (make_error "correlation table is full", rw (allocate, e) refl)
      | inr e ↦ elim (Bool-cases (client == 0)) [
        | inl f ↦ inl (make_error "client id is zero", rw (allocate, e, f) refl)
        | inr f ↦ elim (Bool-cases (message.service_id == 0)) [
          | inl g ↦ inl (make_error "service id is zero", rw (allocate, e, f, g) refl)
          | inr g ↦ elim (Bool-cases (timeout == 0)) [
            | inl h ↦ inl (make_error "timeout is zero", rw (allocate, e, f, g, h) refl)
            | inr h ↦ inr (rw (allocate, e, f, g, h) refl)
          ]
        ]
      ]
    ]

opened : Option PendingRequest → ℕ
opened none = 0
opened (some _) = 1

opened-le : (o : Option PendingRequest) → opened o ≤ 1
unfolding opened
opened-le none = omega arith
opened-le (some _) = omega arith

-- One call: what it opens and completes.
opened_put :
    (b : Bool) (p : PendingRequest) (o : Option PendingRequest)
    → opened (if b then some p else o) ≤ opened o + (if b then 1 else 0)
unfolding opened
opened_put true p none = omega arith
opened_put true p (some q) = omega arith
opened_put false p o = omega arith

add_request-open :
    (r s : RequestId) (m : RequestCorrelator) (message : MessageId) (deadline : ℕ)
    → r.session_id < 65536
    → s.session_id < 65536
    → opened (find_key (key_for r) (add_request m s message deadline).pending)
      ≤ opened (find_key (key_for r) m.pending) + (if is_request r s then 1 else 0)
add_request-open r s m message deadline h k =
    rw (find_key-put_key (key_for s) (key_for r) _ m.pending, key_for_inj r s h k)
      (opened_put (is_request r s) _ (find_key (key_for r) m.pending))

allocate-open :
    (r : RequestId) (m : RequestCorrelator) (client : ℕ) (message : MessageId) (now timeout : ℕ)
    → r.session_id < 65536
    → m.next_session_id < 65536
    → opened (find_key (key_for r) (allocate m client message now timeout).0.pending)
      ≤ opened (find_key (key_for r) m.pending)
        + counts_id r (allocate m client message now timeout).1
allocate-open r m client message now timeout h k =
    elim (allocate_cases m client message now timeout) [
      | inl (e, same) ↦ rw same (omega arith)
      | inr added ↦ rw added (add_request-open r (new_request m client) m message _ h k)
    ]

complete_found-open :
    (r s : RequestId) (m : RequestCorrelator) (message : MessageId) (now : ℕ)
    (o : Option PendingRequest)
    → find_key (key_for s) m.pending ≡ o
    → (key_for s == key_for r) ≡ is_request r s
    → opened (find_key (key_for r) (complete_found m (key_for s) message now o).0.pending)
        + (if is_request r s then counts_done (complete_found m (key_for s) message now o).1 else 0)
      ≤ opened (find_key (key_for r) m.pending)
unfolding complete_found opened
complete_found-open r s m message now none e k = ground arith
complete_found-open r s m message now (some p) e k = ground (
  arith,
  find_key-erase_key (key_for s) (key_for r) m.pending,
  (==_iff (key_for s) (key_for r)).0,
  ap (λ k. find_key k m.pending),
)

complete-open :
    (r s : RequestId) (m : RequestCorrelator) (message : MessageId) (now : ℕ)
    → r.session_id < 65536
    → s.session_id < 65536
    → opened (find_key (key_for r) (complete m s message now).0.pending)
        + (if is_request r s then counts_done (complete m s message now).1 else 0)
      ≤ opened (find_key (key_for r) m.pending)
unfolding complete
complete-open r s m message now h k =
    complete_found-open r s m message now (find_key (key_for s) m.pending) refl
      (key_for_inj r s h k)

expire-open :
    (r : RequestId) (m : RequestCorrelator) (now : ℕ)
    → opened (find_key (key_for r) (expire m now).pending) ≤ opened (find_key (key_for r) m.pending)
unfolding expire opened
expire-open r m now = elim (Option-cases (find_key (key_for r) m.pending)) [
  | inl e ↦ rw (e, find_key-keep_if _ (key_for r) m.pending e) (omega arith)
  | inr (p, e) ↦ rw e (opened-le (find_key (key_for r) (expire m now).pending))
]

-- The identifiers and the table stay within their bounds.
pub record InBounds (m : RequestCorrelator) : Type 0 where
  pub session : m.next_session_id < 65536
  pub session_pos : 0 < m.next_session_id
  pub size : pending_count m ≤ m.capacity

new-InBounds : (capacity : ℕ) → InBounds (new capacity)
unfolding new
new-InBounds capacity = ground arith

allocate-InBounds :
    (m : RequestCorrelator) (client : ℕ) (message : MessageId) (now timeout : ℕ)
    → InBounds m
    → InBounds (allocate m client message now timeout).0
unfolding allocate
allocate-InBounds m client message now timeout b = ground (
  arith,
  length-put_key (key_for (new_request m client))
      (record {
        request_id = new_request m client;
        message_id = message;
        deadline_ns = u64 (now + timeout);
      })
      m.pending,
)

complete_found-InBounds :
    (m : RequestCorrelator) (key : ℕ) (message : MessageId) (now : ℕ) (o : Option PendingRequest)
    → InBounds m
    → InBounds (complete_found m key message now o).0
unfolding complete_found
complete_found-InBounds m key message now none b = b
complete_found-InBounds m key message now (some p) b =
    ground (arith, length-erase_key key m.pending)

pub step-InBounds : (m : RequestCorrelator) (call : Call) → InBounds m → InBounds (step m call)
unfolding step complete expire
step-InBounds m (allocates client message now timeout) b =
    allocate-InBounds m client message now timeout b
step-InBounds m (completes r message now) b = complete_found-InBounds m _ message now _ b
step-InBounds m (expires now) b = record {
  session = b.session;
  session_pos = b.session_pos;
  size = omega (
    arith,
    b.size,
    length-keep_if (λ _ (p : PendingRequest). not (ltb p.deadline_ns now)) m.pending,
  );
}

run-InBounds : (m : RequestCorrelator) (calls : List Call) → InBounds m → InBounds (run m calls)
unfolding run
run-InBounds m [] b = b
run-InBounds m (call ∷ calls) b = run-InBounds (step m call) calls (step-InBounds m call b)

-- Over any calls on a correlator within its bounds, the requests that are completed are among
-- those that are pending at first and those that are allocated.
completed_among :
    (r : RequestId) (m : RequestCorrelator) (calls : List Call)
    → r.session_id < 65536
    → InBounds m
    → All FitsCall calls
    → completions r m calls ≤ opened (find_key (key_for r) m.pending) + allocations r m calls
unfolding completions allocations step
completed_among r m [] h b a = omega arith
completed_among r m (allocates client message now timeout ∷ calls) h b a = omega (
  arith,
  allocate-open r m client message now timeout h b.session,
  completed_among r (allocate m client message now timeout).0 calls h
      (allocate-InBounds m client message now timeout b) a.1,
)
completed_among r m (completes s message now ∷ calls) h b a = omega (
  arith,
  complete-open r s m message now h a.0,
  completed_among r (complete m s message now).0 calls h
      (step-InBounds m (completes s message now) b) a.1,
)
completed_among r m (expires now ∷ calls) h b a = omega (
  arith,
  expire-open r m now,
  completed_among r (expire m now) calls h (step-InBounds m (expires now) b) a.1,
)

-- Over any calls on a new correlator, with identifiers of 16 bits, a request is completed at most
-- as often as it has been allocated, the session that comes next is never zero, and no more
-- requests are pending than the capacity allows.
pub run_completed :
    (capacity : ℕ) (r : RequestId) (calls : List Call)
    → r.session_id < 65536
    → All FitsCall calls
    → (completions r (new capacity) calls ≤ allocations r (new capacity) calls)
      × InBounds (run (new capacity) calls)
unfolding new opened find_key
run_completed capacity r calls h a = (
  omega (arith, completed_among r (new capacity) calls h (new-InBounds capacity) a),
  run-InBounds (new capacity) calls (new-InBounds capacity),
)
