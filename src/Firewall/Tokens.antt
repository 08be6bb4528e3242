-- ===== src/Firewall/Tokens.antt =====
-- firewall_manager.cpp: the tests on the characters of identifiers and interfaces.
use open_autosar.Base.{
  ℕ, leb, ltb, ◌==◌, Bool, not, ◌&&◌, ◌||◌, String, is_empty, codes, length, all_of,
}

abbrev pub is_digit : ℕ → Bool
is_digit c = leb 48 c && leb c 57

-- `std::isalnum` of the "C" locale.
abbrev pub is_alnum : ℕ → Bool
is_alnum c = is_digit c || (leb 65 c && leb c 90) || (leb 97 c && leb c 122)

-- With `_`, `-`, `.`, `:` and `/`.
abbrev pub is_token_char : ℕ → Bool
is_token_char c = is_alnum c || c == 95 || c == 45 || c == 46 || c == 58 || c == 47

-- With `_`, `-` and `.`.
abbrev pub is_interface_char : ℕ → Bool
is_interface_char c = is_alnum c || c == 95 || c == 45 || c == 46

unfoldable pub is_safe_token : String → Bool
is_safe_token value = not (is_empty value) && all_of is_token_char (codes value)

-- A text with other than ASCII characters fails either test, whatever its size in bytes.
unfoldable pub is_safe_interface : String → Bool
is_safe_interface value =
    not (is_empty value || ltb 32 (length (codes value))) && all_of is_interface_char (codes value)
