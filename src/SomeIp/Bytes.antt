-- ===== src/SomeIp/Bytes.antt =====
-- message.cpp and service_discovery.cpp: numbers as bytes, the most significant byte first.
use open_autosar.Base.{ℕ, ◌+◌, ◌*◌, ◌/◌, ◌%◌, ◌^◌, ◌<◌, ◌≡◌, List, [], ◌∷◌, get_or, u32_mod, arith}

-- What `WriteU16`, `WriteU24` and `WriteU32` push.
abbrev pub u16_bytes : ℕ → List ℕ
u16_bytes v = (v / 2 ^ 8 % 256) ∷ (v % 256) ∷ []

abbrev pub u24_bytes : ℕ → List ℕ
u24_bytes v = (v / 2 ^ 16 % 256) ∷ (v / 2 ^ 8 % 256) ∷ (v % 256) ∷ []

abbrev pub u32_bytes : ℕ → List ℕ
u32_bytes v = (v / 2 ^ 24 % 256) ∷ (v / 2 ^ 16 % 256) ∷ (v / 2 ^ 8 % 256) ∷ (v % 256) ∷ []

-- The shifted bytes have no bit in common, so their `|` is their sum.
abbrev pub read_u16 : List ℕ → ℕ → ℕ
read_u16 bytes offset = get_or bytes offset 0 * 2 ^ 8 + get_or bytes (offset + 1) 0

abbrev pub read_u24 : List ℕ → ℕ → ℕ
read_u24 bytes offset =
    get_or bytes offset 0 * 2 ^ 16
    + get_or bytes (offset + 1) 0 * 2 ^ 8
    + get_or bytes (offset + 2) 0

abbrev pub read_u32 : List ℕ → ℕ → ℕ
read_u32 bytes offset =
    get_or bytes offset 0 * 2 ^ 24
    + get_or bytes (offset + 1) 0 * 2 ^ 16
    + get_or bytes (offset + 2) 0 * 2 ^ 8
    + get_or bytes (offset + 3) 0

pub u16_lem : (v : ℕ) → v < 2 ^ 16 → v / 2 ^ 8 % 256 * 2 ^ 8 + v % 256 ≡ v
u16_lem v h = omega arith

pub u24_lem :
    (v : ℕ) → v < 2 ^ 24 → v / 2 ^ 16 % 256 * 2 ^ 16 + v / 2 ^ 8 % 256 * 2 ^ 8 + v % 256 ≡ v
u24_lem v h = omega arith

pub u32_lem :
    (v : ℕ)
    → v < u32_mod
    → v / 2 ^ 24 % 256 * 2 ^ 24 + v / 2 ^ 16 % 256 * 2 ^ 16 + v / 2 ^ 8 % 256 * 2 ^ 8 + v % 256 ≡ v
u32_lem v h = omega arith
