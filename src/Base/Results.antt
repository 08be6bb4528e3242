-- ===== src/Base/Results.antt =====
-- bsw/core/ara-core: `ErrorCode` (error_code.h) and `Result<T>` (result.h).
use Prim.Native.String.{String}
use mathlib.Core.Path.{◌≡◌, refl}
use mathlib.Core.Logic.{◌⊎◌, inl, inr}
use mathlib.Core.Bool.{Bool, true, false}

pub record ErrorCode : Type 0 where
  pub domain : String
  pub message : String

-- `std::variant<T, ErrorCode>`.
pub data Result {ℓ} (A : Type ℓ) : Type ℓ where
  from_value : A → Result A
  from_error : ErrorCode → Result A

abbrev pub has_value {ℓ} : {A : Type ℓ} → Result A → Bool
has_value (from_value a) = true
has_value (from_error e) = false

pub Result-cases {ℓ} :
    {A : Type ℓ} (r : Result A)
    → ((a : A) × (r ≡ from_value a)) ⊎ ((e : ErrorCode) × (r ≡ from_error e))
Result-cases (from_value a) = inl (a, refl)
Result-cases (from_error e) = inr (e, refl)
