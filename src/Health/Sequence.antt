-- ===== src/Health/Sequence.antt =====
-- The supervision of checkpoint sequences (`ReportCheckpoint` of platform_health_manager.cpp).
use native.Mathlib.Nat.{mod-lt}
use open_autosar.Base.{
  ℕ, ◌<◌, ◌≡◌, ap, subst, sym, ◌∙◌, Bool, true, false, Option, none, some, List, [], ◌∷◌, length,
  is_nil, arith, String, str_eq, find, put, Result, if◌then◌else◌, Dict, Bool-cases, Result-cases,
  Option-cases, inl, inr, ◌⊎◌,
}
use open_autosar.Health.{SupervisionPolicy, SupervisionReport, EntityState, PlatformHealthManager}
use open_autosar.Health.Supervision.{
  registered, validate_policy, record_checkpoint, accept_checkpoint, record_alive,
  record_termination, record_exhaustion, record_availability, record_restart, next_index,
}
use open_autosar.Health.Manager.{
  register_entity, with_entity, report_checkpoint, evaluate_alive, evaluate_each, evaluate_all,
  report_process_termination, report_resource_exhaustion, report_service_availability,
  report_restart,
}

-- The calls of the manager's methods that change its state.
pub data Call : Type 0 where
  registers : SupervisionPolicy → Call
  checkpoint : String → String → ℕ → Call
  alive : String → ℕ → Call
  alive_all : ℕ → Call
  terminated : String → ℕ → Call
  exhausted : String → String → ℕ → Call
  available : String → Bool → ℕ → Call
  restarted : String → ℕ → Call

unfoldable pub step : PlatformHealthManager → Call → PlatformHealthManager
step m (registers policy) = (register_entity m policy).0
step m (checkpoint entity name t) = (report_checkpoint m entity name t).0
step m (alive entity t) = (evaluate_alive m entity t).0
step m (alive_all t) = (evaluate_all m t).0
step m (terminated entity t) = (report_process_termination m entity t).0
step m (exhausted entity detail t) = (report_resource_exhaustion m entity detail t).0
step m (available entity b t) = (report_service_availability m entity b t).0
step m (restarted entity t) = (report_restart m entity t).0

unfoldable pub run : PlatformHealthManager → List Call → PlatformHealthManager
run m [] = m
run m (call ∷ calls) = run (step m call) calls

-- The next expected checkpoint is one of the sequence.
abbrev pub InBounds : EntityState → Type 0
InBounds s =
    (is_nil s.policy.checkpoint_sequence ≡ true)
    ⊎ (s.next_checkpoint_index < length s.policy.checkpoint_sequence)

Keeps : (EntityState → EntityState × Result SupervisionReport) → Type 0
Keeps f = (s : EntityState) → InBounds s → InBounds (f s).0

length-positive : (xs : List String) → is_nil xs ≡ false → 0 < length xs
length-positive [] h = ground arith
length-positive (x ∷ xs) h = omega arith

next_index-lt :
    (s : EntityState)
    → is_nil s.policy.checkpoint_sequence ≡ false
    → next_index s < length s.policy.checkpoint_sequence
next_index-lt s h = mod-lt _ (length-positive s.policy.checkpoint_sequence h)

accept_checkpoint-Keeps : (name : String) (t : ℕ) → Keeps (λ s. accept_checkpoint s name t)
unfolding accept_checkpoint Keeps
accept_checkpoint-Keeps name t s b = ground arith

record_checkpoint-Keeps : (name : String) (t : ℕ) → Keeps (λ s. record_checkpoint s name t)
unfolding record_checkpoint accept_checkpoint Keeps
record_checkpoint-Keeps name t s b = ground (arith, next_index-lt s)

record_alive-Keeps : (t : ℕ) → Keeps (λ s. record_alive s t)
unfolding record_alive Keeps
record_alive-Keeps t s b = b

record_termination-Keeps : (t : ℕ) → Keeps (λ s. record_termination s t)
unfolding record_termination Keeps
record_termination-Keeps t s b = b

record_exhaustion-Keeps : (detail : String) (t : ℕ) → Keeps (λ s. record_exhaustion s detail t)
unfolding record_exhaustion Keeps
record_exhaustion-Keeps detail t s b = ground arith

record_availability-Keeps : (a : Bool) (t : ℕ) → Keeps (λ s. record_availability s a t)
unfolding record_availability Keeps
record_availability-Keeps true t s b = b
record_availability-Keeps false t s b = b

record_restart-Keeps : (t : ℕ) → Keeps (λ s. record_restart s t)
unfolding record_restart Keeps
record_restart-Keeps t s b = ground arith

abbrev pub AllInBounds : Dict EntityState → Type 0
AllInBounds [] = Unit {0}
AllInBounds ((name, s) ∷ rest) = InBounds s × AllInBounds rest

some_inj : (s t : EntityState) → some s ≡ some t → s ≡ t
some_inj s t e = ap (λ (o : Option EntityState). elim o [ none ↦ s | some x ↦ x ]) e

find-InBounds :
    (name : String) (s : EntityState) (d : Dict EntityState)
    → AllInBounds d
    → find name d ≡ some s
    → InBounds s
unfolding find
find-InBounds name s [] a e = ground arith
find-InBounds name s ((j, t) ∷ d) (b, a) e = elim (Bool-cases (str_eq j name)) [
  | inl h ↦
      subst InBounds (some_inj t s (sym (ap (λ b. if b then some t else find name d) h) ∙ e)) b
  | inr h ↦ find-InBounds name s d a (sym (ap (λ b. if b then some t else find name d) h) ∙ e)
]

put-InBounds :
    (name : String) (s : EntityState) (d : Dict EntityState)
    → InBounds s
    → AllInBounds d
    → AllInBounds (put name s d)
unfolding put
put-InBounds name s [] b a = (b, tt)
put-InBounds name s ((j, t) ∷ d) b (c, a) = elim (Bool-cases (str_eq j name)) [
  | inl h ↦ rw h (b, a)
  | inr h ↦ rw h (c, put-InBounds name s d b a)
]

with_entity-Keeps :
    (m : PlatformHealthManager) (name : String)
    (f : EntityState → EntityState × Result SupervisionReport)
    → Keeps f
    → AllInBounds m.entities
    → AllInBounds (with_entity m name f).0.entities
unfolding with_entity Keeps
with_entity-Keeps m name f k a = elim (Option-cases (find name m.entities)) [
  | inl e ↦ rw (with_entity, e) a
  | inr (s, e) ↦
      rw (with_entity, e)
        (put-InBounds name (f s).0 m.entities (k s (find-InBounds name s m.entities a e)) a)
]

registered-InBounds : (policy : SupervisionPolicy) → InBounds (registered policy)
registered-InBounds policy = elim (Bool-cases (is_nil policy.checkpoint_sequence)) [
  | inl e ↦ inl e
  | inr e ↦ inr (length-positive policy.checkpoint_sequence e)
]

register_entity_keeps :
    (m : PlatformHealthManager) (policy : SupervisionPolicy)
    → AllInBounds m.entities
    → AllInBounds (register_entity m policy).0.entities
unfolding register_entity
register_entity_keeps m policy a = elim (Result-cases (validate_policy policy)) [
  | inr (_, e) ↦ rw (register_entity, e) a
  | inl (_, e) ↦ elim (Option-cases (find policy.entity m.entities)) [
    | inr (_, f) ↦ rw (register_entity, e, f) a
    | inl f ↦
        rw (register_entity, e, f)
          (put-InBounds policy.entity (registered policy) m.entities (registered-InBounds policy) a)
  ]
]

evaluate_each_keeps :
    (m : PlatformHealthManager) (names : List String) (t : ℕ)
    → AllInBounds m.entities
    → AllInBounds (evaluate_each m names t).0.entities
unfolding evaluate_each evaluate_alive
evaluate_each_keeps m [] t a = a
evaluate_each_keeps m (name ∷ names) t a =
    let b =
      evaluate_each_keeps (evaluate_alive m name t).0 names t
        (with_entity-Keeps m name _ (record_alive-Keeps t) a) in
    elim (Result-cases (evaluate_alive m name t).1) [
      | inl (_, e) ↦ rw (evaluate_each, e) b
      | inr (_, e) ↦ rw (evaluate_each, e) b
    ]

step_keeps :
    (m : PlatformHealthManager) (call : Call)
    → AllInBounds m.entities
    → AllInBounds (step m call).entities
unfolding step report_checkpoint evaluate_alive evaluate_all report_process_termination
    report_resource_exhaustion report_service_availability report_restart
step_keeps m (registers policy) a = register_entity_keeps m policy a
step_keeps m (checkpoint entity name t) a =
    with_entity-Keeps m entity _ (record_checkpoint-Keeps name t) a
step_keeps m (alive entity t) a = with_entity-Keeps m entity _ (record_alive-Keeps t) a
step_keeps m (alive_all t) a = evaluate_each_keeps m _ t a
step_keeps m (terminated entity t) a = with_entity-Keeps m entity _ (record_termination-Keeps t) a
step_keeps m (exhausted entity detail t) a =
    with_entity-Keeps m entity _ (record_exhaustion-Keeps detail t) a
step_keeps m (available entity b t) a =
    with_entity-Keeps m entity _ (record_availability-Keeps b t) a
step_keeps m (restarted entity t) a = with_entity-Keeps m entity _ (record_restart-Keeps t) a

-- Any calls on a manager keep this: the index of the next expected checkpoint of each entity lies
-- within its sequence of checkpoints, or that sequence is empty.
pub run_in_bounds :
    (calls : List Call) (m : PlatformHealthManager)
    → AllInBounds m.entities
    → AllInBounds (run m calls).entities
unfolding run
run_in_bounds [] m a = a
run_in_bounds (call ∷ calls) m a = run_in_bounds calls (step m call) (step_keeps m call a)
