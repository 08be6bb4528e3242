-- ===== src/E2e/Xor.antt =====
-- The flipped lowest bit of a number, for the faults that `ProtectPayload` injects.
use Prim.Native.Nat.{bit_xor, digits, differ, bit_xor-bitwise}
use open_autosar.Base.{ℕ, zero, suc, ◌+◌, ◌-◌, ◌*◌, ◌/◌, ◌%◌, ◌<◌, ◌≤◌, ◌≡◌, refl, ◌∙◌, arith}

differ_zero : (a : ℕ) → differ a 0 ≡ a
differ_zero zero = refl
differ_zero (suc a) = refl

differ_one : (a : ℕ) → a < 2 → differ a 1 ≡ 1 - a
differ_one zero h = refl
differ_one (suc zero) h = refl
differ_one (suc (suc a)) h = omega arith

digits_zero : (n a : ℕ) → a ≤ n → digits (λ b. b) differ n a 0 ≡ a
digits_zero zero a h = omega arith
digits_zero (suc n) zero h = refl
digits_zero (suc n) (suc a) h =
    omega (arith, digits_zero n (suc a / 2) (omega arith), differ_zero (suc a % 2))

pub xor_one : (a : ℕ) → bit_xor a 1 ≡ a / 2 * 2 + (1 - a % 2)
xor_one zero = refl
xor_one (suc a) =
    bit_xor-bitwise (suc a) 1
    ∙ omega (arith, digits_zero a (suc a / 2) (omega arith), differ_one (suc a % 2) (omega arith))
