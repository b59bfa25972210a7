-- ===== src/ControlPlane/Keys.antt =====
-- Commands.cpp: the keys of a table entry, and how they are printed.
use Prim.Native.Char.{Char}
use pfpsim.Common.{ℕ, ◌/◌, ◌%◌, Option, none, some, List, [], ◌∷◌, ◌++◌, String, get_or, pos}
use pfpsim.Decimal.{to_string}

-- `std::vector<uint8_t>`: numbers below 256. Printing takes the last one for the highest.
abbrev pub Bytes : Type 0
Bytes = List ℕ

-- MatchKey with the classes that derive from it.
pub data MatchKey : Type 0 where
  exact_key : Bytes → MatchKey
  lpm_key : Bytes → ℕ → MatchKey
  ternary_key : Bytes → Bytes → MatchKey

pub data MatchType : Type 0 where
  exact lpm ternary : MatchType

unfoldable pub get_type : MatchKey → MatchType
get_type (exact_key v) = exact
get_type (lpm_key v prefix_len) = lpm
get_type (ternary_key v mask) = ternary

unfoldable pub get_data : MatchKey → Bytes
get_data (exact_key v) = v
get_data (lpm_key v prefix_len) = v
get_data (ternary_key v mask) = v

-- `none` is a failed assertion.
unfoldable pub get_prefix_len : MatchKey → Option ℕ
get_prefix_len (lpm_key v prefix_len) = some prefix_len
get_prefix_len _ = none

unfoldable pub get_mask : MatchKey → Option Bytes
get_mask (ternary_key v mask) = some mask
get_mask _ = none

abbrev numerals : List Char
numerals =
    "0" ∷ "1" ∷ "2" ∷ "3" ∷ "4" ∷ "5" ∷ "6" ∷ "7" ∷ "8" ∷ "9" ∷ "a" ∷ "b" ∷ "c" ∷ "d" ∷ "e" ∷ "f"
    ∷ []

unfoldable pub numeral : ℕ → Char
numeral d = get_or numerals d "0"

-- `rbegin` to `rend`.
unfoldable pub backwards : Bytes → Bytes
backwards [] = []
backwards (b ∷ bs) = backwards bs ++ b ∷ []

-- The loop: each byte in base 16, filled up with '0' to the width 2, and what is printed after them.
unfoldable pub hex_pairs : Bytes → String → String
hex_pairs [] rest = rest
hex_pairs (b ∷ bs) rest =
    String.◌∷◌ (numeral (b / 16)) (String.◌∷◌ (numeral (b % 16)) (hex_pairs bs rest))

-- `operator<<` of bytes, with what is printed after them.
unfoldable pub print_bytes : Bytes → String → String
print_bytes b rest = String.◌∷◌ "0" (String.◌∷◌ "x" (hex_pairs (backwards b) rest))

-- A sign between two spaces.
abbrev pub between : Char → String → String
between c rest = String.◌∷◌ " " (String.◌∷◌ c (String.◌∷◌ " " rest))

-- `print` of a key, which `operator<<` of keys calls.
unfoldable pub print_key : MatchKey → String
print_key (exact_key v) = print_bytes v ""
print_key (lpm_key v prefix_len) = print_bytes v (between "/" (to_string (pos prefix_len)))
print_key (ternary_key v mask) = print_bytes v (between "&" (print_bytes mask ""))
