-- ===== src/StateManagement/Selection.antt =====
-- The request that `ApplyNextRequest` selects (state_manager.cpp).
use mathlib.Core.List.{Perm}
use mathlib.Core.List.Perm
use open_autosar.Base.{
  ℕ, zero, suc, ◌+◌, ◌≤◌, ◌≡◌, refl, sym, ap, subst, ◌⊎◌, inl, inr, true, false, List, [], ◌∷◌,
  some, arith, All, get_elem?, Bool-cases,
}
use open_autosar.StateManagement.{PendingRequest, priority_code}
use open_autosar.StateManagement.Queue.{less, max_element, erase_at}

-- `p` is to be served no later than `q`.
abbrev pub Precedes : PendingRequest → PendingRequest → Type 0
Precedes p q =
    (priority_code q.request.priority ≤ priority_code p.request.priority)
    × (priority_code q.request.priority ≡ priority_code p.request.priority
        → p.sequence ≤ q.sequence)

Precedes-self : (p : PendingRequest) → Precedes p p
Precedes-self p = ground arith

Precedes-trans : (p q r : PendingRequest) → Precedes p q → Precedes q r → Precedes p r
Precedes-trans p q r h k = ground arith

less-Precedes : (p q : PendingRequest) → less p q ≡ true → Precedes q p
unfolding less
less-Precedes p q h = ground arith

not_less-Precedes : (p q : PendingRequest) → less p q ≡ false → Precedes p q
unfolding less
not_less-Precedes p q h = ground arith

All-Precedes :
    (p q : PendingRequest) (xs : List PendingRequest)
    → Precedes p q
    → All (Precedes q) xs
    → All (Precedes p) xs
All-Precedes p q [] h a = tt
All-Precedes p q (x ∷ xs) h a = (Precedes-trans p q x h a.0, All-Precedes p q xs h a.1)

-- One round of the scan, in its two cases.
max_element-newer :
    (best : PendingRequest) (at i : ℕ) (x : PendingRequest) (xs : List PendingRequest)
    → less best x ≡ true
    → max_element best at i (x ∷ xs) ≡ max_element x i (suc i) xs
unfolding max_element
max_element-newer best at i x xs e = rw (e, max_element)

max_element-older :
    (best : PendingRequest) (at i : ℕ) (x : PendingRequest) (xs : List PendingRequest)
    → less best x ≡ false
    → max_element best at i (x ∷ xs) ≡ max_element best at (suc i) xs
unfolding max_element
max_element-older best at i x xs e = rw (e, max_element)

abbrev Best : PendingRequest → List PendingRequest → PendingRequest × ℕ → Type 0
Best best xs s = Precedes s.0 best × All (Precedes s.0) xs

max_element-Best :
    (best : PendingRequest) (at i : ℕ) (xs : List PendingRequest)
    → Best best xs (max_element best at i xs)
unfolding max_element
max_element-Best best at i [] = (Precedes-self best, tt)
max_element-Best best at i (x ∷ xs) = elim (Bool-cases (less best x)) [
  | inl e ↦
      let r = max_element-Best x i (suc i) xs in
      subst (Best best (x ∷ xs)) (sym (max_element-newer best at i x xs e))
        (Precedes-trans (max_element x i (suc i) xs).0 x best r.0 (less-Precedes best x e), r)
  | inr e ↦
      let r = max_element-Best best at (suc i) xs in
      subst (Best best (x ∷ xs)) (sym (max_element-older best at i x xs e)) (
        r.0,
        (
          Precedes-trans (max_element best at (suc i) xs).0 best x r.0 (not_less-Precedes best x e),
          r.1,
        ),
      )
]

-- The element returned is the one at the position returned.
abbrev Found : PendingRequest → ℕ → ℕ → List PendingRequest → PendingRequest × ℕ → Type 0
Found best at i xs s =
    ((s.0 ≡ best) × (s.1 ≡ at)) ⊎ ((k : ℕ) × (get_elem? xs k ≡ some s.0) × (s.1 ≡ i + k))

max_element-Found :
    (best : PendingRequest) (at i : ℕ) (xs : List PendingRequest)
    → Found best at i xs (max_element best at i xs)
unfolding max_element
max_element-Found best at i [] = inl (refl, refl)
max_element-Found best at i (x ∷ xs) = elim (Bool-cases (less best x)) [
  | inl e ↦
      rw (e, max_element)
        (elim (max_element-Found x i (suc i) xs) [
          | inl h ↦ inr (zero, ap some (sym h.0), omega arith)
          | inr (k, f, h) ↦ inr (suc k, f, omega arith)
        ])
  | inr e ↦
      rw (e, max_element)
        (elim (max_element-Found best at (suc i) xs) [
          | inl h ↦ inl h
          | inr (k, f, h) ↦ inr (suc k, f, omega arith)
        ])
]

erase_at-perm :
    (xs : List PendingRequest) (i : ℕ) (x : PendingRequest)
    → get_elem? xs i ≡ some x
    → Perm xs (x ∷ erase_at i xs)
unfolding erase_at
erase_at-perm [] i x e = absurd (ground arith)
erase_at-perm (y ∷ ys) zero x e = Perm.cons' (ground arith) Perm.rfl
erase_at-perm (y ∷ ys) (suc i) x e =
    Perm.trans (Perm.cons y (erase_at-perm ys i x e)) (Perm.swap x y (erase_at i ys))

max_element-position :
    (x : PendingRequest) (xs : List PendingRequest)
    → get_elem? (x ∷ xs) (max_element x 0 1 xs).1 ≡ some (max_element x 0 1 xs).0
max_element-position x xs = elim (max_element-Found x 0 1 xs) [
  | inl h ↦ rw (h.1, h.0)
  | inr (k, f, h) ↦ let e : (max_element x 0 1 xs).1 ≡ suc k = omega arith in rw e f
]

-- What `ApplyNextRequest` takes from a queue that is not empty precedes every pending request, and
-- with what stays behind it makes up the queue.
pub max_element-serves :
    (x : PendingRequest) (xs : List PendingRequest)
    → All (Precedes (max_element x 0 1 xs).0) (x ∷ xs)
      × Perm (x ∷ xs) ((max_element x 0 1 xs).0 ∷ erase_at (max_element x 0 1 xs).1 (x ∷ xs))
max_element-serves x xs =
    ((max_element-Best x 0 1 xs), erase_at-perm (x ∷ xs) _ _ (max_element-position x xs))
