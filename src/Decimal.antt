-- ===== src/Decimal.antt =====
-- `std::to_string` of an `int`: decimal digits, and a sign before a negative number.
use Prim.Native.Char.{Char, code}
use pfpsim.Common.{
  ℕ, zero, suc, ◌+◌, ◌-◌, ◌*◌, ◌/◌, ◌%◌, ◌<◌, ◌≤◌, ◌≡◌, refl, ap, ◌∙◌, sym, List, [], ◌∷◌, String,
  arith, if◌then◌else◌, ltb, ℤ, pos, negsuc, get_or, nat_beq, Bool-cases, inl, inr,
}

abbrev numerals : List Char
numerals = "0" ∷ "1" ∷ "2" ∷ "3" ∷ "4" ∷ "5" ∷ "6" ∷ "7" ∷ "8" ∷ "9" ∷ []

unfoldable pub digit : ℕ → Char
digit d = get_or numerals d "0"

-- The digits of `n` before those that are there; `fuel` is above `n`.
decimal : ℕ → ℕ → String → String
unfolding digit
decimal zero n rest = rest
decimal (suc fuel) n rest =
    let more = decimal fuel (n / 10) (String.◌∷◌ (digit (n % 10)) rest) in
    if ltb n 10 then String.◌∷◌ (digit n) rest else more

unfoldable pub to_string : ℤ → String
unfolding decimal
to_string (pos n) = decimal (suc n) n ""
to_string (negsuc n) = String.◌∷◌ "-" (decimal (suc (suc n)) (suc n) "")

-- The number that digits read from the left stand for, after `v`.
value_from : ℕ → String → ℕ
value_from v String.[] = v
value_from v (String.◌∷◌ c s) = value_from (v * 10 + (code c - 48)) s

code-digit : (d : ℕ) → d < 10 → code (digit d) ≡ 48 + d
unfolding digit
code-digit zero h = refl
code-digit (suc zero) h = refl
code-digit (suc (suc zero)) h = refl
code-digit (suc (suc (suc zero))) h = refl
code-digit (suc (suc (suc (suc zero)))) h = refl
code-digit (suc (suc (suc (suc (suc zero))))) h = refl
code-digit (suc (suc (suc (suc (suc (suc zero)))))) h = refl
code-digit (suc (suc (suc (suc (suc (suc (suc zero))))))) h = refl
code-digit (suc (suc (suc (suc (suc (suc (suc (suc zero)))))))) h = refl
code-digit (suc (suc (suc (suc (suc (suc (suc (suc (suc zero))))))))) h = refl
code-digit (suc (suc (suc (suc (suc (suc (suc (suc (suc (suc d)))))))))) h = absurd (omega arith)

value_from-decimal :
    (fuel n : ℕ) (rest : String) → n < fuel → value_from 0 (decimal fuel n rest) ≡ value_from n rest
unfolding decimal value_from
value_from-decimal zero n rest h = absurd (omega arith)
value_from-decimal (suc fuel) n rest h = elim (Bool-cases (ltb n 10)) [
  | inl small ↦
      rw (small, decimal) (ap (λ v. value_from v rest) (omega (arith, code-digit n (ground arith))))
  | inr large ↦
      rw (large, decimal)
        (value_from-decimal fuel (n / 10) (String.◌∷◌ (digit (n % 10)) rest) (ground arith)
          ∙ ap (λ v. value_from v rest) (omega (arith, code-digit (n % 10) (omega arith))))
]

IsUnsigned : String → Type 0
IsUnsigned String.[] = ⊥
IsUnsigned (String.◌∷◌ c s) = 48 ≤ code c

decimal-IsUnsigned :
    (fuel n : ℕ) (rest : String) → IsUnsigned rest → IsUnsigned (decimal fuel n rest)
unfolding decimal IsUnsigned
decimal-IsUnsigned zero n rest h = h
decimal-IsUnsigned (suc fuel) n rest h = elim (Bool-cases (ltb n 10)) [
  | inl small ↦ rw (small, decimal) (omega (arith, code-digit n (ground arith)))
  | inr large ↦
      rw (large, decimal)
        (decimal-IsUnsigned fuel (n / 10) (String.◌∷◌ (digit (n % 10)) rest)
          (omega (arith, code-digit (n % 10) (omega arith))))
]

-- The text of a number has a first character, which is a digit.
decimal_first : (fuel n : ℕ) → IsUnsigned (decimal (suc fuel) n "")
unfolding decimal IsUnsigned
decimal_first fuel n = elim (Bool-cases (ltb n 10)) [
  | inl small ↦ rw (small, decimal) (omega (arith, code-digit n (ground arith)))
  | inr large ↦
      rw (large, decimal)
        (decimal-IsUnsigned fuel (n / 10) (String.◌∷◌ (digit (n % 10)) "")
          (omega (arith, code-digit (n % 10) (omega arith))))
]

negated : ℕ → ℤ
negated zero = pos 0
negated (suc n) = negsuc n

pub read : String → ℤ
unfolding value_from negated
read String.[] = pos 0
read (String.◌∷◌ c s) =
    if nat_beq (code c) 45 then negated (value_from 0 s) else pos (value_from 0 (String.◌∷◌ c s))

read-unsigned : (s : String) → IsUnsigned s → read s ≡ pos (value_from 0 s)
unfolding read IsUnsigned
read-unsigned String.[] h = absurd h
read-unsigned (String.◌∷◌ c s) h = ground arith

-- Every `int` is read back from its text.
pub read-to_string : (i : ℤ) → read (to_string i) ≡ i
unfolding to_string
read-to_string (pos n) =
    read-unsigned (decimal (suc n) n "") (decimal_first n n)
    ∙ ap pos (value_from-decimal (suc n) n "" (omega arith) ∙ (unfold value_from in refl))
read-to_string (negsuc n) =
    (unfold read in ap negated (value_from-decimal (suc (suc n)) (suc n) "" (omega arith)))

-- So two `int` values with one text are equal.
pub to_string-injective : (i j : ℤ) → to_string i ≡ to_string j → i ≡ j
to_string-injective i j e = sym (read-to_string i) ∙ ap read e ∙ read-to_string j
