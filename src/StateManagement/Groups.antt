-- ===== src/StateManagement/Groups.antt =====
-- Laws of the list of function groups (state_manager.cpp).
use open_autosar.Base.{
  ◌≡◌, ◌≢◌, refl, eq_iff, subst, inl, inr, String, List, [], ◌∷◌, ◌++◌, some, arith, All,
  Bool-cases,
}
use open_autosar.StateManagement.{FunctionGroupRecord}
use open_autosar.StateManagement.Manager.{is_named, find_group, put_group}

pub find_group-All {κ} :
    (P : FunctionGroupRecord → Type κ) (name : String) (gs : List FunctionGroupRecord)
    (g : FunctionGroupRecord)
    → All P gs
    → find_group name gs ≡ some g
    → P g
unfolding find_group
find_group-All P name [] g a e = absurd (ground arith)
find_group-All P name (x ∷ xs) g a e = elim (Bool-cases (is_named name x)) [
  | inl h ↦ subst P (ground arith) a.0
  | inr h ↦ find_group-All P name xs g a.1 (ground arith)
]

pub put_group-All {κ} :
    (P : FunctionGroupRecord → Type κ) (g : FunctionGroupRecord) (gs : List FunctionGroupRecord)
    → P g
    → All P gs
    → All P (put_group g gs)
unfolding put_group
put_group-All P g [] p a = tt
put_group-All P g (x ∷ xs) p a = elim (Bool-cases (is_named g.definition.name x)) [
  | inl h ↦ rw (h, put_group) (p, a.1)
  | inr h ↦ rw (h, put_group) (a.0, put_group-All P g xs p a.1)
]

pub append-All {κ} :
    (P : FunctionGroupRecord → Type κ) (gs hs : List FunctionGroupRecord)
    → All P gs
    → All P hs
    → All P (gs ++ hs)
append-All P [] hs a b = b
append-All P (x ∷ xs) hs a b = (a.0, append-All P xs hs a.1 b)

pub find_group-named :
    (name : String) (gs : List FunctionGroupRecord) (g : FunctionGroupRecord)
    → find_group name gs ≡ some g
    → g.definition.name ≡ name
unfolding find_group
find_group-named name [] g e = absurd (ground arith)
find_group-named name (x ∷ xs) g e =
    ground (arith, eq_iff x.definition.name name, find_group-named name xs g)

pub find_group-put_self :
    (name : String) (gs : List FunctionGroupRecord) (g g' : FunctionGroupRecord)
    → find_group name gs ≡ some g
    → g'.definition.name ≡ name
    → find_group name (put_group g' gs) ≡ some g'
unfolding find_group put_group
find_group-put_self name [] g g' e h = absurd (ground arith)
find_group-put_self name (x ∷ xs) g g' e h = ground (
  arith,
  eq_iff g'.definition.name name,
  eq_iff x.definition.name name,
  eq_iff x.definition.name g'.definition.name,
  find_group-put_self name xs g g',
)

pub find_group-put_other :
    (name : String) (gs : List FunctionGroupRecord) (g' : FunctionGroupRecord)
    → g'.definition.name ≢ name
    → find_group name (put_group g' gs) ≡ find_group name gs
unfolding find_group put_group
find_group-put_other name [] g' h = refl
find_group-put_other name (x ∷ xs) g' h = ground (
  arith,
  eq_iff g'.definition.name name,
  eq_iff x.definition.name name,
  eq_iff x.definition.name g'.definition.name,
  find_group-put_other name xs g',
)
