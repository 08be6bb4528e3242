-- ===== src/Base/Sorting.antt =====
-- `std::sort`, by insertion, for a comparison that never holds both ways.
use mathlib.Core.Path.{◌≡◌}
use mathlib.Core.Bool.{Bool, true, false}
use mathlib.Core.List.{List, [], ◌∷◌, Perm}
use mathlib.Core.List.Perm
use mathlib.Core.Logic.{inl, inr}
use open_autosar.Base.Tests.{if◌then◌else◌, Bool-cases}

module _ {ℓ} {A : Type ℓ} (less : A → A → Bool) where
  unfoldable pub insert_by : A → List A → List A
  insert_by x [] = x ∷ []
  insert_by x (y ∷ ys) = let rest = insert_by x ys in if less y x then y ∷ rest else x ∷ y ∷ ys

  unfoldable pub sort_by : List A → List A
  sort_by [] = []
  sort_by (x ∷ xs) = insert_by x (sort_by xs)

  -- No element comes before the one that stands before it.
  abbrev pub IsSorted : List A → Type 0
  IsSorted [] = Unit
  IsSorted (x ∷ []) = Unit
  IsSorted (x ∷ y ∷ ys) = (less y x ≡ false) × IsSorted (y ∷ ys)

  pub insert_by-Perm : (x : A) (l : List A) → Perm (insert_by x l) (x ∷ l)
  unfolding insert_by
  insert_by-Perm x [] = Perm.rfl
  insert_by-Perm x (y ∷ ys) = elim (Bool-cases (less y x)) [
    | inl t ↦ rw (t) (Perm.trans (Perm.cons y (insert_by-Perm x ys)) (Perm.swap x y ys))
    | inr f ↦ rw (f) Perm.rfl
  ]

  pub sort_by-Perm : (l : List A) → Perm (sort_by l) l
  unfolding sort_by
  sort_by-Perm [] = Perm.rfl
  sort_by-Perm (x ∷ xs) = Perm.trans (insert_by-Perm x (sort_by xs)) (Perm.cons x (sort_by-Perm xs))

  module _ (asym : (x y : A) → less x y ≡ true → less y x ≡ false) where
    insert_by-IsSorted : (x : A) (l : List A) → IsSorted l → IsSorted (insert_by x l)
    unfolding insert_by
    insert_by-IsSorted x [] s = tt
    insert_by-IsSorted x (y ∷ []) s = elim (Bool-cases (less y x)) [
      | inl t ↦ rw (t) (asym y x t, tt)
      | inr f ↦ rw (f) (f, tt)
    ]
    insert_by-IsSorted x (y ∷ z ∷ zs) s = elim (Bool-cases (less y x)) [
      | inl t ↦ elim (Bool-cases (less z x)) [
        | inl u ↦
            let ih : IsSorted (insert_by x (z ∷ zs)) = insert_by-IsSorted x (z ∷ zs) s.1 in
            rw (t, u) (s.0, rw (u) at ih)
        | inr g ↦ rw (t, g) (asym y x t, (g, s.1))
      ]
      | inr f ↦ rw (f) (f, s)
    ]

    pub sort_by-IsSorted : (l : List A) → IsSorted (sort_by l)
    unfolding sort_by
    sort_by-IsSorted [] = tt
    sort_by-IsSorted (x ∷ xs) = insert_by-IsSorted x (sort_by xs) (sort_by-IsSorted xs)
