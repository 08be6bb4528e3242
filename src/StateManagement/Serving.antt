-- ===== src/StateManagement/Serving.antt =====
-- `ApplyNextRequest` (state_manager.cpp): which request it applies.
use mathlib.Core.List.{Perm}
use open_autosar.Base.{◌≡◌, List, ◌∷◌, All}
use open_autosar.Process.{ProcessLauncher}
use open_autosar.StateManagement.{PendingRequest, StateManager}
use open_autosar.StateManagement.Queue.{max_element, erase_at}
use open_autosar.StateManagement.Apply.{apply_next_request, apply_request}
use open_autosar.StateManagement.Selection.{Precedes, max_element-serves}

module _ {L : Type 0} (launcher : ProcessLauncher L) where
  -- With requests pending, `ApplyNextRequest` takes out one that is of the highest priority
  -- pending and has the smallest sequence number of that priority, leaves the others pending, and
  -- does what `ApplyRequest` does for it.
  pub apply_next_request-serves :
      (m : StateManager L) (x : PendingRequest) (xs : List PendingRequest)
      → m.pending_requests ≡ x ∷ xs
      → (p : PendingRequest) × (rest : List PendingRequest) × All (Precedes p) (x ∷ xs)
        × Perm (x ∷ xs) (p ∷ rest)
        × (apply_next_request launcher m
            ≡ apply_request launcher (record m { pending_requests = rest }) p.request p.sequence)
  unfolding apply_next_request
  apply_next_request-serves m x xs e =
      let s = max_element-serves x xs in
      (
        (max_element x 0 1 xs).0,
        erase_at (max_element x 0 1 xs).1 (x ∷ xs),
        s.0,
        s.1,
        rw (e, apply_next_request),
      )
