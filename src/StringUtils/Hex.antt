-- ===== src/StringUtils/Hex.antt =====
-- StringUtils.cpp: the text of `to_hex_string` can be read back.
use Prim.Native.Char.{Char, code}
use pfpsim.Common.{
  ℕ, zero, suc, ◌+◌, ◌-◌, ◌*◌, ◌/◌, ◌%◌, ◌≤◌, ◌<◌, ◌≡◌, refl, some, List, [], ◌∷◌, arith,
  if◌then◌else◌, ltb, length, take,
}
use pfpsim.StringUtils.{hex_digit, hex_byte, hex_bytes, to_hex_string}

-- The value of a numeral in base 16.
abbrev hex_value : Char → ℕ
hex_value c = if ltb (code c) 58 then code c - 48 else code c - 55

-- The bytes that a text of pairs of numerals stands for.
abbrev pub read_hex : List Char → List ℕ
read_hex [] = []
read_hex (c ∷ []) = []
read_hex (c ∷ e ∷ rest) = (16 * hex_value c + hex_value e) ∷ read_hex rest

abbrev pub AreBytes : List ℕ → Type 0
AreBytes [] = Unit {0}
AreBytes (b ∷ bs) = (b < 256) × AreBytes bs

hex_value-hex_digit : (d : ℕ) → d < 16 → hex_value (hex_digit d) ≡ d
unfolding hex_digit
hex_value-hex_digit zero h = refl
hex_value-hex_digit (suc zero) h = refl
hex_value-hex_digit (suc (suc zero)) h = refl
hex_value-hex_digit (suc (suc (suc zero))) h = refl
hex_value-hex_digit (suc (suc (suc (suc zero)))) h = refl
hex_value-hex_digit (suc (suc (suc (suc (suc zero))))) h = refl
hex_value-hex_digit (suc (suc (suc (suc (suc (suc zero)))))) h = refl
hex_value-hex_digit (suc (suc (suc (suc (suc (suc (suc zero))))))) h = refl
hex_value-hex_digit (suc (suc (suc (suc (suc (suc (suc (suc zero)))))))) h = refl
hex_value-hex_digit (suc (suc (suc (suc (suc (suc (suc (suc (suc zero))))))))) h = refl
hex_value-hex_digit (suc (suc (suc (suc (suc (suc (suc (suc (suc (suc d)))))))))) h =
    letter d (omega arith)
  where
    letter :
        (d : ℕ)
        → d < 6
        → hex_value (hex_digit (suc (suc (suc (suc (suc (suc (suc (suc (suc (suc d)))))))))))
          ≡ suc (suc (suc (suc (suc (suc (suc (suc (suc (suc d)))))))))
    letter zero h = refl
    letter (suc zero) h = refl
    letter (suc (suc zero)) h = refl
    letter (suc (suc (suc zero))) h = refl
    letter (suc (suc (suc (suc zero)))) h = refl
    letter (suc (suc (suc (suc (suc zero))))) h = refl
    letter (suc (suc (suc (suc (suc (suc d)))))) h = absurd (omega arith)

read_hex-byte :
    (b : ℕ) → b < 256 → 16 * hex_value (hex_digit (b / 16)) + hex_value (hex_digit (b % 16)) ≡ b
read_hex-byte b h =
    omega (
      arith,
      hex_value-hex_digit (b / 16) (omega arith),
      hex_value-hex_digit (b % 16) (omega arith),
    )

hex_bytes-tail :
    (x : ℕ) (key : List ℕ) (i n : ℕ) → hex_bytes (x ∷ key) (suc i) n ≡ hex_bytes key i n
unfolding hex_bytes
hex_bytes-tail x key i zero = refl
hex_bytes-tail x key i (suc n) = rw (hex_bytes-tail x key (suc i) n) refl

-- For bytes below 256 and a length that the key has, the text is made, and reading its pairs of
-- numerals in base 16 gives the bytes back.
pub read_hex-to_hex_string :
    (key : List ℕ) (n : ℕ)
    → AreBytes key
    → n ≤ length key
    → (s : List Char) × (to_hex_string key n ≡ some s) × (read_hex s ≡ take n key)
unfolding to_hex_string hex_bytes hex_byte
read_hex-to_hex_string key zero a h = ([], refl, refl)
read_hex-to_hex_string [] (suc n) a h = absurd (omega arith)
read_hex-to_hex_string (b ∷ key) (suc n) a h =
    let (s, made, read) = read_hex-to_hex_string key n a.1 (omega arith) in
    (
      hex_digit (b / 16) ∷ hex_digit (b % 16) ∷ s,
      rw (hex_bytes-tail b key 0 n, made) refl,
      rw (read_hex-byte b a.0, read) refl,
    )
