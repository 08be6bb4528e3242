-- ===== src/Firewall/Cidr.antt =====
-- firewall_manager.cpp: `IsValidIpv4Cidr` and the numbers in it, on the characters of the text.
use open_autosar.Base.{
  ℕ, zero, suc, ◌+◌, ◌-◌, ◌*◌, leb, ltb, ◌==◌, Bool, true, false, not, ◌&&◌, ◌||◌, String, codes,
  List, [], ◌∷◌, is_nil, length, take, drop, all_of, Option, none, some, if◌then◌else◌,
}
use open_autosar.Firewall.Tokens.{is_digit}

abbrev pub dot_code : ℕ
dot_code = 46

abbrev pub slash_code : ℕ
slash_code = 47

-- The value of digits after a value.
unfoldable pub digits_value : ℕ → List ℕ → ℕ
digits_value n [] = n
digits_value n (c ∷ cs) = digits_value (n * 10 + (c - 48)) cs

-- `std::from_chars` that has to read the whole text, at a size that cannot overflow.
unfoldable pub parse_number : ℕ → ℕ → List ℕ → Option ℕ
parse_number max_size max_value value =
    if is_nil value || ltb max_size (length value)
    then none
    else if not (all_of is_digit value) || ltb max_value (digits_value 0 value)
    then none
    else some (digits_value 0 value)

abbrev pub parse_byte : List ℕ → Option ℕ
parse_byte value = parse_number 3 255 value

abbrev pub parse_prefix : List ℕ → Option ℕ
parse_prefix value = parse_number 2 32 value

abbrev pub is_parsed : Option ℕ → Bool
is_parsed none = false
is_parsed (some n) = true

abbrev pub shift : Option ℕ → Option ℕ
shift none = none
shift (some i) = some (suc i)

-- `std::string_view::find` of a character.
unfoldable pub find_code : ℕ → List ℕ → Option ℕ
find_code c [] = none
find_code c (x ∷ xs) = let rest = find_code c xs in if x == c then some 0 else shift rest

-- `address.find('.', begin)`, or the end of the address if there is none.
abbrev pub dot_from : List ℕ → ℕ → Option ℕ → ℕ
dot_from address begin none = length address
dot_from address begin (some i) = begin + i

abbrev pub is_found : Option ℕ → Bool
is_found none = false
is_found (some i) = true

-- The octets that are left, from `begin` on; the last has no dot to look for.
unfoldable pub read_octets : ℕ → List ℕ → ℕ → Bool
read_octets zero address begin = begin == length address + 1
read_octets (suc left) address begin =
    let dot = if left == 0 then none else find_code dot_code (drop begin address) in
    let end = dot_from address begin dot in
    let rest = read_octets left address (end + 1) in
    if leb end begin
    then false
    else if not (is_parsed (parse_byte (take (end - begin) (drop begin address))))
    then false
    else if not (left == 0) && not (is_found dot)
    then false
    else rest

unfoldable pub is_valid_codes : List ℕ → Bool
is_valid_codes value = elim (find_code slash_code value) [
  | none ↦ false
  | some slash ↦
      if slash == 0 || leb (length value) (slash + 1)
      then false
      else if not (is_parsed (parse_prefix (drop (slash + 1) value)))
      then false
      else read_octets 4 (take slash value) 0
]

abbrev pub is_valid_ipv4_cidr : String → Bool
is_valid_ipv4_cidr value = is_valid_codes (codes value)
