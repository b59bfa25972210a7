-- ===== src/ControlPlane/Printed.antt =====
-- Commands.cpp: a printed key can be read back.
use Prim.Native.Char.{Char, code}
use pfpsim.Common.{
  ℕ, zero, suc, ◌+◌, ◌-◌, ◌*◌, ◌/◌, ◌%◌, ◌<◌, ◌≡◌, refl, ap, ◌∙◌, false, [], ◌∷◌, ◌++◌, String,
  arith, if◌then◌else◌, ltb, nat_beq, ℤ, pos, negsuc,
}
use pfpsim.Decimal.{to_string, read, read-to_string}
use pfpsim.StringUtils.Hex.{AreBytes}
use pfpsim.ControlPlane.Keys.{
  Bytes, MatchKey, exact_key, lpm_key, ternary_key, numeral, backwards, hex_pairs, print_bytes,
  print_key, between,
}

-- The value of a numeral in base 16.
abbrev numeral_value : Char → ℕ
numeral_value c = if ltb (code c) 58 then code c - 48 else code c - 87

-- The pairs of numerals at the front, up to a space, and what is left.
pairs_at : String → Bytes × String
pairs_at String.[] = ([], "")
pairs_at (String.◌∷◌ c String.[]) = ([], String.◌∷◌ c "")
pairs_at (String.◌∷◌ c (String.◌∷◌ e s)) =
    let (bs, rest) = pairs_at s in
    if nat_beq (code c) 32
    then ([], String.◌∷◌ c (String.◌∷◌ e s))
    else ((16 * numeral_value c + numeral_value e) ∷ bs, rest)

-- The bytes of a text that begins with "0x", the lowest first, and what is left.
bytes_at : String → Bytes × String
unfolding pairs_at
bytes_at (String.◌∷◌ c (String.◌∷◌ e s)) = let (bs, rest) = pairs_at s in (backwards bs, rest)
bytes_at s = ([], s)

absolute : ℤ → ℕ
absolute (pos n) = n
absolute (negsuc n) = suc n

-- The key whose bytes are read already, where `rest` is left.
key_with : Bytes → String → MatchKey
unfolding absolute bytes_at
key_with v (String.◌∷◌ c (String.◌∷◌ e (String.◌∷◌ k s))) =
    if nat_beq (code e) 47 then lpm_key v (absolute (read s)) else ternary_key v (bytes_at s).0
key_with v s = exact_key v

pub read_key : String → MatchKey
unfolding key_with bytes_at
read_key s = let (v, rest) = bytes_at s in key_with v rest

abbrev pub HasBytes : MatchKey → Type 0
HasBytes (exact_key v) = AreBytes v
HasBytes (lpm_key v prefix_len) = AreBytes v
HasBytes (ternary_key v mask) = AreBytes v × AreBytes mask

IsNumeral : ℕ → Type 0
IsNumeral d = (numeral_value (numeral d) ≡ d) × (nat_beq (code (numeral d)) 32 ≡ false)

below-IsNumeral : (d : ℕ) → d < 16 → IsNumeral d
unfolding IsNumeral numeral
below-IsNumeral zero h = (refl, refl)
below-IsNumeral (suc zero) h = (refl, refl)
below-IsNumeral (suc (suc zero)) h = (refl, refl)
below-IsNumeral (suc (suc (suc zero))) h = (refl, refl)
below-IsNumeral (suc (suc (suc (suc zero)))) h = (refl, refl)
below-IsNumeral (suc (suc (suc (suc (suc zero))))) h = (refl, refl)
below-IsNumeral (suc (suc (suc (suc (suc (suc zero)))))) h = (refl, refl)
below-IsNumeral (suc (suc (suc (suc (suc (suc (suc zero))))))) h = (refl, refl)
below-IsNumeral (suc (suc (suc (suc (suc (suc (suc (suc zero)))))))) h = (refl, refl)
below-IsNumeral (suc (suc (suc (suc (suc (suc (suc (suc (suc zero))))))))) h = (refl, refl)
below-IsNumeral (suc (suc (suc (suc (suc (suc (suc (suc (suc (suc d)))))))))) h =
    letter d (omega arith)
  where
    letter :
        (d : ℕ) → d < 6 → IsNumeral (suc (suc (suc (suc (suc (suc (suc (suc (suc (suc d))))))))))
    letter zero h = (refl, refl)
    letter (suc zero) h = (refl, refl)
    letter (suc (suc zero)) h = (refl, refl)
    letter (suc (suc (suc zero))) h = (refl, refl)
    letter (suc (suc (suc (suc zero)))) h = (refl, refl)
    letter (suc (suc (suc (suc (suc zero))))) h = (refl, refl)
    letter (suc (suc (suc (suc (suc (suc d)))))) h = absurd (omega arith)

-- Pairs of numerals are read, where what follows has none.
pairs_at-hex_pairs :
    (bs : Bytes) (rest : String)
    → AreBytes bs
    → pairs_at rest ≡ ([], rest)
    → pairs_at (hex_pairs bs rest) ≡ (bs, rest)
unfolding pairs_at hex_pairs IsNumeral
pairs_at-hex_pairs [] rest a h = h
pairs_at-hex_pairs (b ∷ bs) rest a h =
    let (high, no_space) = below-IsNumeral (b / 16) (omega (arith, a.0)) in
    let (low, _) = below-IsNumeral (b % 16) (omega arith) in
    rw (no_space, pairs_at-hex_pairs bs rest a.1 h)
      (ap (λ x. (x ∷ bs, rest)) (omega (arith, high, low)))

backwards-snoc : (bs : Bytes) (b : ℕ) → backwards (bs ++ b ∷ []) ≡ b ∷ backwards bs
unfolding backwards
backwards-snoc [] b = refl
backwards-snoc (x ∷ bs) b = ap (λ ys. ys ++ x ∷ []) (backwards-snoc bs b)

backwards-backwards : (bs : Bytes) → backwards (backwards bs) ≡ bs
unfolding backwards
backwards-backwards [] = refl
backwards-backwards (b ∷ bs) =
    backwards-snoc (backwards bs) b ∙ ap (λ ys. b ∷ ys) (backwards-backwards bs)

AreBytes-snoc : (bs : Bytes) (b : ℕ) → AreBytes bs → b < 256 → AreBytes (bs ++ b ∷ [])
AreBytes-snoc [] b a h = (h, tt)
AreBytes-snoc (x ∷ bs) b a h = (a.0, AreBytes-snoc bs b a.1 h)

AreBytes-backwards : (bs : Bytes) → AreBytes bs → AreBytes (backwards bs)
unfolding backwards
AreBytes-backwards [] a = tt
AreBytes-backwards (b ∷ bs) a = AreBytes-snoc (backwards bs) b (AreBytes-backwards bs a.1) a.0

bytes_at-print_bytes :
    (v : Bytes) (rest : String)
    → AreBytes v
    → pairs_at rest ≡ ([], rest)
    → bytes_at (print_bytes v rest) ≡ (v, rest)
unfolding bytes_at print_bytes
bytes_at-print_bytes v rest a h =
    rw (pairs_at-hex_pairs (backwards v) rest (AreBytes-backwards v a) h, backwards-backwards v)
      refl

pairs_at-between : (c : Char) (rest : String) → pairs_at (between c rest) ≡ ([], between c rest)
unfolding pairs_at
pairs_at-between c rest = refl

-- A key is read back from its text, where its bytes are below 256: two keys with the same text are the
-- same, of the same kind, with the same bytes, and with the same prefix length or mask.
pub read_key-print_key : (k : MatchKey) → HasBytes k → read_key (print_key k) ≡ k
unfolding read_key print_key key_with absolute
read_key-print_key (exact_key v) h = rw (bytes_at-print_bytes v "" h refl) refl
read_key-print_key (lpm_key v n) h =
    rw
      (
        bytes_at-print_bytes v _ h (pairs_at-between "/" (to_string (pos n))),
        read-to_string (pos n),
      )
      refl
read_key-print_key (ternary_key v m) h =
    rw
      (
        bytes_at-print_bytes v _ h.0 (pairs_at-between "&" (print_bytes m "")),
        bytes_at-print_bytes m "" h.1 refl,
      )
      refl
