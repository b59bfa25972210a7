-- ===== src/StringUtils/Binary.antt =====
-- StringUtils.cpp: which bits of a prefix `to_binary_string` shows.
use Prim.Native.Char.{Char}
use pfpsim.Common.{
  ℕ, zero, suc, ◌+◌, ◌*◌, ◌/◌, ◌%◌, ◌≤◌, ◌≡◌, refl, some, List, [], ◌∷◌, ◌++◌, arith, ◌==◌, nat_eq,
  if◌then◌else◌, length, take,
}
use pfpsim.StringUtils.{bit_and, masked, binary_digits, to_binary_string}

-- The bit of weight `w` of a byte.
abbrev pub bit : ℕ → ℕ → Char
bit b w = if (b / w) % 2 == 0 then "0" else "1"

-- The seven low bits of a byte.
abbrev pub low_bits : ℕ → List Char
low_bits b = bit b 64 ∷ bit b 32 ∷ bit b 16 ∷ bit b 8 ∷ bit b 4 ∷ bit b 2 ∷ bit b 1 ∷ []

-- A later byte's first place is always '0'.
abbrev pub later_bytes : List ℕ → List Char
later_bytes [] = []
later_bytes (b ∷ bs) = "0" ∷ low_bits b ++ later_bytes bs

abbrev pub shown_bits : List ℕ → List Char
shown_bits [] = []
shown_bits (b ∷ bs) = bit b 128 ∷ low_bits b ++ later_bytes bs

masked_0 : (b : ℕ) → masked b 0 ≡ "0"
unfolding masked bit_and
masked_0 b = ground arith

masked_128 : (b : ℕ) → masked b 128 ≡ bit b 128
unfolding masked bit_and
masked_128 b = ground arith

masked_64 : (b : ℕ) → masked b 64 ≡ bit b 64
unfolding masked bit_and
masked_64 b = ground arith

masked_32 : (b : ℕ) → masked b 32 ≡ bit b 32
unfolding masked bit_and
masked_32 b = ground arith

masked_16 : (b : ℕ) → masked b 16 ≡ bit b 16
unfolding masked bit_and
masked_16 b = ground arith

masked_8 : (b : ℕ) → masked b 8 ≡ bit b 8
unfolding masked bit_and
masked_8 b = ground arith

masked_4 : (b : ℕ) → masked b 4 ≡ bit b 4
unfolding masked bit_and
masked_4 b = ground arith

masked_2 : (b : ℕ) → masked b 2 ≡ bit b 2
unfolding masked bit_and
masked_2 b = ground arith

masked_1 : (b : ℕ) → masked b 1 ≡ bit b 1
unfolding masked bit_and
masked_1 b = ground arith

ruleset weights = (masked_64, masked_32, masked_16, masked_8, masked_4, masked_2, masked_1)

-- A byte that stands before the loop's position does not matter.
binary_digits-tail :
    (x : ℕ) (bs : List ℕ) (i mask width : ℕ)
    → binary_digits (x ∷ bs) (suc i) mask width ≡ binary_digits bs i mask width
unfolding binary_digits
binary_digits-tail x bs i mask zero = refl
binary_digits-tail x bs i mask (suc width) =
    rw (binary_digits-tail x bs (suc i) 64 width, binary_digits-tail x bs i (mask / 2) width) refl

-- The low bits of a byte, where `rest` is what the loop shows after them.
low_bits-binary_digits :
    (b : ℕ) (bs : List ℕ) (width : ℕ)
    → ((w : ℕ) → width ≡ 7 + w → binary_digits (b ∷ bs) 0 0 w ≡ some (take w (later_bytes bs)))
    → binary_digits (b ∷ bs) 0 64 width ≡ some (take width (low_bits b ++ later_bytes bs))
unfolding binary_digits
low_bits-binary_digits b bs zero h = refl
low_bits-binary_digits b bs (suc (suc (suc (suc (suc (suc (suc w))))))) h =
    rw (h w (omega arith)) (simp weights)
low_bits-binary_digits b bs _ h = simp weights

-- After a byte: the place at which the mask is 0, then the low bits of the next byte, and so on.
later_bytes-binary_digits :
    (b : ℕ) (bs : List ℕ) (width : ℕ)
    → width ≤ 8 * length bs
    → binary_digits (b ∷ bs) 0 0 width ≡ some (take width (later_bytes bs))
unfolding binary_digits
later_bytes-binary_digits b bs zero h = refl
later_bytes-binary_digits b [] (suc width) h = absurd (omega arith)
later_bytes-binary_digits b (c ∷ cs) (suc width) h =
    rw
      (
        binary_digits-tail b (c ∷ cs) 0 64 width,
        low_bits-binary_digits c cs width
            (λ w e. later_bytes-binary_digits c cs w (omega (arith, h, e))),
        masked_0 b,
      )
      refl

-- For a width that the prefix has, the text is that of the bits, except that the first bit of every
-- byte but the first is shown as '0' whatever it is.
pub to_binary_string_bits :
    (prefix : List ℕ) (width : ℕ)
    → width ≤ 8 * length prefix
    → to_binary_string prefix width ≡ some (take width (shown_bits prefix))
unfolding to_binary_string binary_digits
to_binary_string_bits prefix zero h = refl
to_binary_string_bits [] (suc width) h = absurd (omega arith)
to_binary_string_bits (b ∷ bs) (suc width) h =
    rw
      (
        low_bits-binary_digits b bs width
            (λ w e. later_bytes-binary_digits b bs w (omega (arith, h, e))),
        masked_128 b,
      )
      refl
