-- ===== src/Firewall/Addresses.antt =====
-- The characters of valid identifiers and CIDR texts (firewall_manager.cpp).
use open_autosar.Base.{
  ℕ, zero, suc, ◌+◌, ◌-◌, ◌≤◌, ◌==◌, ◌≡◌, refl, ap, sym, Bool, true, ◌||◌, List, [], ◌∷◌, ◌++◌,
  length, take, drop, take-append-drop, all_of, none, some, Option-cases, if◌then◌else◌, inl, inr,
  arith, subst,
}
use open_autosar.Firewall.Tokens.{is_digit, is_token_char, is_interface_char}
use open_autosar.Firewall.Cidr.{
  dot_code, slash_code, parse_number, parse_byte, parse_prefix, is_parsed, find_code, read_octets,
  is_valid_codes,
}

-- Letters, digits, `_`, `-`, `.`, `:`, `/`, and what the expressions put between the data: the space,
-- `"`, `=` and `*`.
abbrev pub is_plain : ℕ → Bool
is_plain c = is_token_char c || c == 32 || c == 34 || c == 61 || c == 42

pub all_of-token : (xs : List ℕ) → all_of is_token_char xs ≡ true → all_of is_plain xs ≡ true
all_of-token [] h = refl
all_of-token (x ∷ xs) h = ground (arith, h, all_of-token xs)

pub all_of-interface :
    (xs : List ℕ) → all_of is_interface_char xs ≡ true → all_of is_plain xs ≡ true
all_of-interface [] h = refl
all_of-interface (x ∷ xs) h = ground (arith, h, all_of-interface xs)

all_of-digit : (xs : List ℕ) → all_of is_digit xs ≡ true → all_of is_plain xs ≡ true
all_of-digit [] h = refl
all_of-digit (x ∷ xs) h = ground (arith, h, all_of-digit xs)

all_of-append :
    (xs ys : List ℕ)
    → all_of is_plain xs ≡ true
    → all_of is_plain ys ≡ true
    → all_of is_plain (xs ++ ys) ≡ true
all_of-append [] ys h k = k
all_of-append (x ∷ xs) ys h k = ground (arith, h, all_of-append xs ys)

find_code-split :
    (c : ℕ) (xs : List ℕ) (i : ℕ)
    → find_code c xs ≡ some i
    → xs ≡ take i xs ++ (c ∷ drop (suc i) xs)
unfolding find_code
find_code-split c [] i h = absurd (ground (arith, h))
find_code-split c (x ∷ xs) zero h = elim (Option-cases (find_code c xs)) [
  | inl n ↦ ground (arith, h, n)
  | inr (j, s) ↦ ground (arith, h, s)
]
find_code-split c (x ∷ xs) (suc i) h = elim (Option-cases (find_code c xs)) [
  | inl n ↦ absurd (ground (arith, h, n))
  | inr (j, s) ↦
      let same : find_code c xs ≡ some i = ground (arith, h, s) in
      ap (λ l. x ∷ l) (find_code-split c xs i same)
]

drop-drop : (m n k : ℕ) (xs : List ℕ) → m + n ≡ k → drop n (drop m xs) ≡ drop k xs
drop-drop zero n k xs h = ap (λ j. drop j xs) (omega (arith, h))
drop-drop (suc m) zero zero [] h = refl
drop-drop (suc m) (suc n) zero [] h = refl
drop-drop (suc m) zero (suc k) [] h = refl
drop-drop (suc m) (suc n) (suc k) [] h = refl
drop-drop (suc m) n zero (x ∷ xs) h = absurd (omega (arith, h))
drop-drop (suc m) n (suc k) (x ∷ xs) h = drop-drop m n k xs (omega (arith, h))

drop_end : (n : ℕ) (xs : List ℕ) → length xs ≤ n → drop n xs ≡ []
drop_end zero [] h = refl
drop_end zero (x ∷ xs) h = absurd (omega arith)
drop_end (suc n) [] h = refl
drop_end (suc n) (x ∷ xs) h = drop_end n xs (omega arith)

parse_number-plain :
    (size value : ℕ) (xs : List ℕ)
    → is_parsed (parse_number size value xs) ≡ true
    → all_of is_plain xs ≡ true
unfolding parse_number
parse_number-plain size value xs h = ground (arith, h, all_of-digit xs)

-- The characters from `begin` on, of an address whose octets are read.
read_octets-plain :
    (left : ℕ) (address : List ℕ) (begin : ℕ)
    → read_octets left address begin ≡ true
    → all_of is_plain (drop begin address) ≡ true
unfolding read_octets
read_octets-plain zero address begin h = rw (drop_end begin address (ground (arith, h))) refl
read_octets-plain (suc left) address begin h =
    let xs = drop begin address in
    let dot = if left == 0 then none else find_code dot_code xs in
    elim (Option-cases dot) [
      | inl n ↦
          let size : length address - begin + begin ≡ length address = ground (arith, h, n) in
          let number : is_parsed (parse_byte (take (length address - begin) xs)) ≡ true =
            ground (arith, h, n) in
          all_of_parts (length address - begin) xs
            (parse_number-plain 3 255 (take (length address - begin) xs) number)
            (rw
              (
                drop-drop begin (length address - begin) (length address) address
                    (omega (arith, size)),
                drop_end (length address) address (omega arith),
              )
              refl)
      | inr (i, found) ↦
          let here : find_code dot_code xs ≡ some i = ground (arith, found) in
          let number : is_parsed (parse_byte (take (begin + i - begin) xs)) ≡ true =
            ground (arith, h, found) in
          let rest : read_octets left address (begin + i + 1) ≡ true = ground (arith, h, found) in
          let tail = read_octets-plain left address (begin + i + 1) rest in
          let size : begin + i - begin ≡ i = omega arith in
          let first =
            parse_number-plain 3 255 (take i xs)
              (subst (λ k. is_parsed (parse_byte (take k xs)) ≡ true) size number) in
          let same : drop (suc i) xs ≡ drop (begin + i + 1) address =
            drop-drop begin (suc i) (begin + i + 1) address (omega arith) in
          subst (λ l. all_of is_plain l ≡ true) (sym (find_code-split dot_code xs i here))
            (all_of-append (take i xs) (dot_code ∷ drop (suc i) xs) first
              (subst (λ l. all_of is_plain (dot_code ∷ l) ≡ true) (sym same) tail))
    ]
  where
    all_of_parts :
        (n : ℕ) (xs : List ℕ)
        → all_of is_plain (take n xs) ≡ true
        → all_of is_plain (drop n xs) ≡ true
        → all_of is_plain xs ≡ true
    all_of_parts n xs h k =
        subst (λ l. all_of is_plain l ≡ true) (take-append-drop n xs)
          (all_of-append (take n xs) (drop n xs) h k)

pub is_valid_codes-plain :
    (value : List ℕ) → is_valid_codes value ≡ true → all_of is_plain value ≡ true
unfolding is_valid_codes
is_valid_codes-plain value h = elim (Option-cases (find_code slash_code value)) [
  | inl n ↦ absurd (ground (arith, h, n))
  | inr (slash, found) ↦
      let prefix : is_parsed (parse_prefix (drop (slash + 1) value)) ≡ true =
        ground (arith, h, found) in
      let octets : read_octets 4 (take slash value) 0 ≡ true = ground (arith, h, found) in
      let same : slash + 1 ≡ suc slash = omega arith in
      let last =
        subst (λ k. all_of is_plain (drop k value) ≡ true) same
          (parse_number-plain 2 32 (drop (slash + 1) value) prefix) in
      subst (λ l. all_of is_plain l ≡ true) (sym (find_code-split slash_code value slash found))
        (all_of-append (take slash value) (slash_code ∷ drop (suc slash) value)
          (read_octets-plain 4 (take slash value) 0 octets) last)
]
