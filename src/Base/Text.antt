-- ===== src/Base/Text.antt =====
-- Tests on `std::string`.
use Prim.Native.Nat.{ℕ, zero, suc, ◌/◌, ◌%◌}
use Prim.Native.Char.{code}
use Prim.Native.String.append
use Prim.Native.String.{String, ◌++◌}
use mathlib.Core.Path.{◌≡◌, refl, ap, ◌∙◌}
use mathlib.Core.Logic.{◌≢◌, ◌⊎◌, inl, inr}
use mathlib.Core.Bool.{Bool, true, false, ◌&&◌, ◌||◌}
use mathlib.Core.List.{List, [], ◌∷◌, ◌++◌ as ◌+++◌}
use native.Mathlib.Omega.{arith}
use text.Mathlib.Text.{◌==◌}
use text.Mathlib.TextEquality.{eq_iff}
use open_autosar.Base.Lists.{any_of, all_of, get_or, All}
use open_autosar.Base.Tests.{if◌then◌else◌, Bool-cases, ltb, ◌==◌ as nat_eq}

abbrev pub is_empty : String → Bool
is_empty s = s == ""

-- `std::find(xs.begin(), xs.end(), s) != xs.end()`.
abbrev pub has_text : String → List String → Bool
has_text s xs = any_of (λ x. x == s) xs

-- A comparison of texts, with what it decides.
pub text-cases : (s t : String) → (((s == t) ≡ true) × (s ≡ t)) ⊎ (((s == t) ≡ false) × (s ≢ t))
text-cases s t = elim (Bool-cases (s == t)) [
  | inl e ↦ inl (e, (eq_iff s t).0 e)
  | inr e ↦ inr (e, λ p. ground (arith, (eq_iff s t).1 p))
]

-- The bytes of an ASCII text. For any text the code points have the order of its UTF-8 bytes.
abbrev pub codes : String → List ℕ
codes String.[] = []
codes (String.◌∷◌ c s) = code c ∷ codes s

-- `std::lexicographical_compare`.
abbrev pub codes_less : List ℕ → List ℕ → Bool
codes_less xs [] = false
codes_less [] (y ∷ ys) = true
codes_less (x ∷ xs) (y ∷ ys) = ltb x y || (nat_eq x y && codes_less xs ys)

-- `s < t` of `std::string`.
abbrev pub text_less : String → String → Bool
text_less s t = codes_less (codes s) (codes t)

abbrev pub is_prefix : List ℕ → List ℕ → Bool
is_prefix [] ys = true
is_prefix (x ∷ xs) [] = false
is_prefix (x ∷ xs) (y ∷ ys) = nat_eq x y && is_prefix xs ys

-- `value.rfind(prefix, 0) == 0` of `std::string_view`.
abbrev pub starts_with : String → String → Bool
starts_with value prefix = is_prefix (codes prefix) (codes value)

-- What is written to a stream.
unfoldable pub concat : List String → String
concat [] = ""
concat (s ∷ ss) = s ++ concat ss

codes-append : (s t : String) → codes (s ++ t) ≡ codes s +++ codes t
codes-append String.[] t = ap codes (append.nil t)
codes-append (String.◌∷◌ c s) t =
    ap codes (append.cons c s t) ∙ ap (λ l. code c ∷ l) (codes-append s t)

abbrev pub digit_texts : List String
digit_texts = "0" ∷ "1" ∷ "2" ∷ "3" ∷ "4" ∷ "5" ∷ "6" ∷ "7" ∷ "8" ∷ "9" ∷ []

-- `std::to_string`, on fuel: one unit for each digit.
unfoldable pub decimal_digits : ℕ → ℕ → String
decimal_digits zero n = ""
decimal_digits (suc fuel) n =
    let rest = decimal_digits fuel (n / 10) in
    if ltb n 10 then get_or digit_texts n "" else rest ++ get_or digit_texts (n % 10) ""

-- `std::to_string` of a number below 10 ^ 20, which each unsigned integer of the program is.
abbrev pub decimal : ℕ → String
decimal n = decimal_digits 20 n

-- A test on all the characters of a text.
module _ (p : ℕ → Bool) where
  abbrev pub all_codes : String → Bool
  all_codes s = all_of p (codes s)

  all_codes-append : (s t : String) → all_codes (s ++ t) ≡ (all_codes s && all_codes t)
  all_codes-append s t = rw (codes-append s t) (all_of-append (codes s) (codes t))
    where
      all_of-append : (xs ys : List ℕ) → all_of p (xs +++ ys) ≡ (all_of p xs && all_of p ys)
      all_of-append [] ys = refl
      all_of-append (x ∷ xs) ys = ground (arith, all_of-append xs ys)

  pub all_codes-concat : (ss : List String) → all_codes (concat ss) ≡ all_of all_codes ss
  unfolding concat
  all_codes-concat [] = refl
  all_codes-concat (s ∷ ss) =
      all_codes-append s (concat ss) ∙ ap (λ b. all_codes s && b) (all_codes-concat ss)

  module _ (digits : all_of all_codes digit_texts ≡ true) where
    all_codes-get_or :
        (ss : List String) (n : ℕ) → all_of all_codes ss ≡ true → all_codes (get_or ss n "") ≡ true
    all_codes-get_or [] n h = refl
    all_codes-get_or (s ∷ ss) zero h = ground (arith, h)
    all_codes-get_or (s ∷ ss) (suc n) h = ground (arith, h, all_codes-get_or ss n)

    all_codes-decimal_digits : (fuel n : ℕ) → all_codes (decimal_digits fuel n) ≡ true
    unfolding decimal_digits
    all_codes-decimal_digits zero n = refl
    all_codes-decimal_digits (suc fuel) n = elim (Bool-cases (ltb n 10)) [
      | inl t ↦ rw (t) (all_codes-get_or digit_texts n digits)
      | inr f ↦
          rw
            (
              f,
              all_codes-append (decimal_digits fuel (n / 10)) (get_or digit_texts (n % 10) ""),
              all_codes-decimal_digits fuel (n / 10),
            )
            (all_codes-get_or digit_texts (n % 10) digits)
    ]

    pub all_codes-decimal : (n : ℕ) → all_codes (decimal n) ≡ true
    all_codes-decimal n = all_codes-decimal_digits 20 n

codes_less-asym : (xs ys : List ℕ) → codes_less xs ys ≡ true → codes_less ys xs ≡ false
codes_less-asym [] [] h = refl
codes_less-asym [] (y ∷ ys) h = refl
codes_less-asym (x ∷ xs) [] h = absurd (ground (arith, h))
codes_less-asym (x ∷ xs) (y ∷ ys) h = ground (arith, h, codes_less-asym xs ys)

pub text_less-asym : (s t : String) → text_less s t ≡ true → text_less t s ≡ false
text_less-asym s t h = codes_less-asym (codes s) (codes t) h

abbrev pub IsUnique : List String → Type 0
IsUnique [] = Unit
IsUnique (x ∷ xs) = (has_text x xs ≡ false) × IsUnique xs

-- None of the texts is among those seen.
abbrev pub AreNew : List String → List String → Type 0
AreNew seen xs = All (λ x. has_text x seen ≡ false) xs

has_text-append :
    (x y : String) (xs : List String) → has_text x (xs +++ (y ∷ [])) ≡ (has_text x xs || (y == x))
has_text-append x y [] = ground arith
has_text-append x y (z ∷ xs) = ground (arith, has_text-append x y xs)

pub AreNew-init :
    (seen : List String) (x : String) (ys : List String)
    → AreNew (seen +++ (x ∷ [])) ys
    → AreNew seen ys × (has_text x ys ≡ false)
AreNew-init seen x [] a = (tt, refl)
AreNew-init seen x (y ∷ ys) a =
    let (news, absent) = AreNew-init seen x ys a.1 in
    let fresh = a.0 in
    (
      (ground (arith, fresh, has_text-append y x seen), news),
      ground (arith, fresh, absent, has_text-append y x seen, eq_iff x y, eq_iff y x),
    )
