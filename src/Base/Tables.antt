-- ===== src/Base/Tables.antt =====
-- `std::map` keyed by a number, as association lists.
use Prim.Native.Nat.{ℕ, ◌≤◌, ◌+◌}
use mathlib.Core.Path.{◌≡◌, refl}
use mathlib.Core.Bool.{Bool}
use mathlib.Core.List.{List, [], ◌∷◌}
use mathlib.Core.Option.{Option, none, some}
use native.Mathlib.Omega.{arith}
use open_autosar.Base.Lists.{length}
use open_autosar.Base.Tests.{if◌then◌else◌, ◌==◌}

abbrev pub Table {ℓ} : Type ℓ → Type ℓ
Table V = List (ℕ × V)

module _ {ℓ} {V : Type ℓ} where
  unfoldable pub find_key : ℕ → Table V → Option V
  find_key k [] = none
  find_key k ((j, v) ∷ m) = if j == k then some v else find_key k m

  -- Writes an existing entry in place and appends a new one.
  unfoldable pub put_key : ℕ → V → Table V → Table V
  put_key k v [] = (k, v) ∷ []
  put_key k v ((j, w) ∷ m) = if j == k then (j, v) ∷ m else (j, w) ∷ put_key k v m

  -- The entries that pass a test, as a loop of `erase` leaves them.
  unfoldable pub keep_if : (ℕ → V → Bool) → Table V → Table V
  keep_if p [] = []
  keep_if p ((j, w) ∷ m) = let rest = keep_if p m in if p j w then (j, w) ∷ rest else rest

  unfoldable pub erase_key : ℕ → Table V → Table V
  erase_key k [] = []
  erase_key k ((j, w) ∷ m) = let rest = erase_key k m in if j == k then rest else (j, w) ∷ rest

  pub find_key-put_key :
      (k j : ℕ) (v : V) (m : Table V)
      → find_key j (put_key k v m) ≡ (if k == j then some v else find_key j m)
  unfolding find_key put_key
  find_key-put_key k j v [] = refl
  find_key-put_key k j v ((i, w) ∷ m) = ground (arith, find_key-put_key k j v m)

  pub find_key-erase_key :
      (k j : ℕ) (m : Table V) → find_key j (erase_key k m) ≡ (if k == j then none else find_key j m)
  unfolding find_key erase_key
  find_key-erase_key k j [] = ground arith
  find_key-erase_key k j ((i, w) ∷ m) = ground (arith, find_key-erase_key k j m)

  pub length-put_key : (k : ℕ) (v : V) (m : Table V) → length (put_key k v m) ≤ length m + 1
  unfolding put_key
  length-put_key k v [] = omega arith
  length-put_key k v ((i, w) ∷ m) = ground (arith, length-put_key k v m)

  pub length-erase_key : (k : ℕ) (m : Table V) → length (erase_key k m) ≤ length m
  unfolding erase_key
  length-erase_key k [] = omega arith
  length-erase_key k ((i, w) ∷ m) = ground (arith, length-erase_key k m)

  pub length-keep_if : (p : ℕ → V → Bool) (m : Table V) → length (keep_if p m) ≤ length m
  unfolding keep_if
  length-keep_if p [] = omega arith
  length-keep_if p ((i, w) ∷ m) = ground (arith, length-keep_if p m)

  pub find_key-keep_if :
      (p : ℕ → V → Bool) (j : ℕ) (m : Table V)
      → find_key j m ≡ none
      → find_key j (keep_if p m) ≡ none
  unfolding find_key keep_if
  find_key-keep_if p j [] h = refl
  find_key-keep_if p j ((i, w) ∷ m) h = ground (arith, find_key-keep_if p j m)
