-- ===== src/StateManagement/Queue.antt =====
-- state_manager.cpp: the choice of the next pending request in `ApplyNextRequest`.
use open_autosar.Base.{ℕ, zero, suc, Bool, List, [], ◌∷◌, ltb, ◌==◌, if◌then◌else◌}
use open_autosar.StateManagement.{PendingRequest, priority_code}

-- The comparison that `std::max_element` is given.
unfoldable pub less : PendingRequest → PendingRequest → Bool
less left right =
    let left_priority = priority_code left.request.priority in
    let right_priority = priority_code right.request.priority in
    if left_priority == right_priority
    then ltb right.sequence left.sequence
    else ltb left_priority right_priority

-- `std::max_element` behind the elements already seen: `best` stands at position `at`, and the
-- next element at `i`. The first of equal elements is kept.
unfoldable pub max_element : PendingRequest → ℕ → ℕ → List PendingRequest → PendingRequest × ℕ
max_element best at i [] = (best, at)
max_element best at i (x ∷ xs) =
    max_element (if less best x then x else best) (if less best x then i else at) (suc i) xs

-- `pending_requests_.erase(iter)`.
unfoldable pub erase_at : ℕ → List PendingRequest → List PendingRequest
erase_at i [] = []
erase_at zero (x ∷ xs) = xs
erase_at (suc i) (x ∷ xs) = x ∷ erase_at i xs
