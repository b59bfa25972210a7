-- ===== src/Examples/Texts.antt =====
-- Keys as texts.
use Prim.Native.Char.{Char}
use pfpsim.Common.{◌≡◌, refl, some, List, [], ◌∷◌, take, arith}
use pfpsim.StringUtils.{to_hex_string, to_binary_string, binary_digits, masked, bit_and}
use pfpsim.StringUtils.Binary.{shown_bits, to_binary_string_bits}
use pfpsim.StringUtils.Hex.{read_hex, read_hex-to_hex_string}

-- The ninth character should be '1'.
lost_bit :
    to_binary_string (255 ∷ 128 ∷ []) 9
    ≡ some ("1" ∷ "1" ∷ "1" ∷ "1" ∷ "1" ∷ "1" ∷ "1" ∷ "1" ∷ "0" ∷ [])
unfolding to_binary_string binary_digits masked bit_and
lost_bit = refl

to_binary_string_bits_example :
    to_binary_string (192 ∷ 168 ∷ []) 12 ≡ some (take 12 (shown_bits (192 ∷ 168 ∷ [])))
to_binary_string_bits_example = to_binary_string_bits (192 ∷ 168 ∷ []) 12 (omega arith)

read_hex-to_hex_string_example :
    (s : List Char) × (to_hex_string (192 ∷ 168 ∷ []) 2 ≡ some s)
    × (read_hex s ≡ take 2 (192 ∷ 168 ∷ []))
read_hex-to_hex_string_example =
    read_hex-to_hex_string (192 ∷ 168 ∷ []) 2 (omega arith, (omega arith, tt)) (omega arith)
