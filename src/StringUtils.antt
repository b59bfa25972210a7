-- ===== src/StringUtils.antt =====
-- pfpsim/core/StringUtils.cpp: `to_hex_string` and `to_binary_string`. The texts are lists of
-- characters, and the bytes behind a pointer a list of numbers below 256; `none` is a read past them.
-- What is printed at the verbosity `p4profile` is left out.
pub mod Binary
pub mod Hex
use Prim.Native.Char.{Char}
use pfpsim.Common.{
  ◌>>=◌, ℕ, zero, suc, ◌+◌, ◌*◌, ◌/◌, ◌%◌, Option, none, some, List, [], ◌∷◌, ◌==◌, nat_eq,
  if◌then◌else◌, get_elem?, get_or,
}

abbrev hex_numerals : List Char
hex_numerals =
    "0" ∷ "1" ∷ "2" ∷ "3" ∷ "4" ∷ "5" ∷ "6" ∷ "7" ∷ "8" ∷ "9" ∷ "A" ∷ "B" ∷ "C" ∷ "D" ∷ "E" ∷ "F"
    ∷ []

unfoldable pub hex_digit : ℕ → Char
hex_digit d = get_or hex_numerals d "0"

-- A byte in base 16, filled up with '0' to the width 2.
unfoldable pub hex_byte : ℕ → List Char
hex_byte b = hex_digit (b / 16) ∷ hex_digit (b % 16) ∷ []

-- The loop over the next `length` bytes, from position `i`.
hex_bytes : List ℕ → ℕ → ℕ → Option (List Char)
hex_bytes key i zero = some []
hex_bytes key i (suc length) = do
  b ← get_elem? key i
  rest ← hex_bytes key (suc i) length
  some (get_or (hex_byte b) 0 "0" ∷ get_or (hex_byte b) 1 "0" ∷ rest)

unfoldable pub to_hex_string : List ℕ → ℕ → Option (List Char)
unfolding hex_bytes
to_hex_string key length = hex_bytes key 0 length

-- `&` on the low `n` bits.
unfoldable pub bit_and : ℕ → ℕ → ℕ → ℕ
bit_and zero a b = 0
bit_and (suc n) a b = 2 * bit_and n (a / 2) (b / 2) + (a % 2) * (b % 2)

-- `(prefix[byte_index] & mask) ? '1' : '0'`, on 8 bits.
unfoldable pub masked : ℕ → ℕ → Char
masked b mask = if bit_and 8 b mask == 0 then "0" else "1"

-- The loop for the next `width` bits, with the loop's byte index and mask.
unfoldable pub binary_digits : List ℕ → ℕ → ℕ → ℕ → Option (List Char)
binary_digits prefix byte_index mask zero = some []
binary_digits prefix byte_index mask (suc width) = do
  b ← get_elem? prefix byte_index
  rest ←
      if mask == 0
      then binary_digits prefix (suc byte_index) (128 / 2) width
      else binary_digits prefix byte_index (mask / 2) width
  some (masked b mask ∷ rest)

unfoldable pub to_binary_string : List ℕ → ℕ → Option (List Char)
to_binary_string prefix width = binary_digits prefix 0 128 width
