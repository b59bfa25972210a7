-- ===== src/ControlPlane/Scanner.antt =====
-- pfpsim/core/cp/tokens.l: the patterns of the scanner and its actions, from the text of a line to its
-- tokens. The generated scanner takes the longest match at each place, and of two the first rule's.
pub mod Lengths
pub mod Lexemes
use Prim.Native.Char.{code}
use Prim.Native.String.{count}
use pfpsim.Common.{
  ◌>>=◌, ℕ, zero, suc, ◌+◌, ◌-◌, ◌*◌, Bool, true, false, not, ◌&&◌, ◌||◌, Option, none, some, List,
  [], ◌∷◌, String, if◌then◌else◌, ltb, leb, nat_beq,
}
use pfpsim.Hierarchy.{begins_with}
use pfpsim.ControlPlane.Keys.{Bytes}
use pfpsim.ControlPlane.Grammar.{
  Token, insert_entry, modify_entry, delete_entry, begin_transaction_word, end_transaction_word,
  identifier, decimal, hexadecimal, space, eol, comment, dot, slash, ampersand, quote, other,
}

-- The rules, in the order of the file.
pub data Rule : Type 0 where
  insert_rule modify_rule delete_rule begin_rule end_rule comment_rule decimal_rule hexadecimal_rule
        identifier_rule space_rule newline_rule any_rule :
      Rule

abbrev pub is_digit : ℕ → Bool
is_digit c = leb 48 c && leb c 57

abbrev pub is_alpha : ℕ → Bool
is_alpha c = (leb 65 c && leb c 90) || (leb 97 c && leb c 122)

abbrev pub is_xdigit : ℕ → Bool
is_xdigit c = is_digit c || (leb 65 c && leb c 70) || (leb 97 c && leb c 102)

abbrev pub is_blank : ℕ → Bool
is_blank c = nat_beq c 32 || nat_beq c 9

-- How many characters at the start of a text pass a test.
unfoldable pub span : (ℕ → Bool) → String → ℕ
span test String.[] = 0
span test (String.◌∷◌ c s) = let rest = span test s in if test (code c) then suc rest else 0

-- The lengths of the longest matches of the patterns at the start of a text; 0 is that there is none.
unfoldable pub word : String → String → ℕ
word w s = if begins_with s w then count w else 0

unfoldable pub comment_length : String → ℕ
comment_length String.[] = 0
comment_length (String.◌∷◌ c s) =
    if nat_beq (code c) 35 then suc (span (λ d. not (nat_beq d 10)) s) else 0

unfoldable pub identifier_length : String → ℕ
identifier_length String.[] = 0
identifier_length (String.◌∷◌ c s) =
    if is_alpha (code c) || nat_beq (code c) 95
    then suc (span (λ d. is_alpha d || is_digit d || nat_beq d 95) s)
    else 0

-- `(:[[:xdigit:]]{2})*`.
unfoldable pub more_pairs : String → ℕ
more_pairs (String.◌∷◌ colon (String.◌∷◌ c (String.◌∷◌ d s))) =
    let rest = more_pairs s in
    if nat_beq (code colon) 58 && is_xdigit (code c) && is_xdigit (code d) then 3 + rest else 0
more_pairs _ = 0

unfoldable pub hexadecimal_length : String → ℕ
hexadecimal_length (String.◌∷◌ c (String.◌∷◌ d s)) =
    if is_xdigit (code c) && is_xdigit (code d) && ltb 0 (more_pairs s) then 2 + more_pairs s else 0
hexadecimal_length _ = 0

unfoldable pub newline_length : String → ℕ
newline_length String.[] = 0
newline_length (String.◌∷◌ c s) = if nat_beq (code c) 10 then 1 else 0

unfoldable pub any_length : String → ℕ
any_length String.[] = 0
any_length (String.◌∷◌ c s) = if nat_beq (code c) 10 then 0 else 1

unfoldable pub matches : String → List (Rule × ℕ)
matches s =
    (insert_rule, word "insert_entry" s)
    ∷ (modify_rule, word "modify_entry" s)
    ∷ (delete_rule, word "delete_entry" s)
    ∷ (begin_rule, word "begin transaction" s)
    ∷ (end_rule, word "end transaction" s)
    ∷ (comment_rule, comment_length s)
    ∷ (decimal_rule, span is_digit s)
    ∷ (hexadecimal_rule, hexadecimal_length s)
    ∷ (identifier_rule, identifier_length s)
    ∷ (space_rule, span is_blank s)
    ∷ (newline_rule, newline_length s)
    ∷ (any_rule, any_length s)
    ∷ []

-- The longest match, and the first of those.
unfoldable pub longest : Rule × ℕ → List (Rule × ℕ) → Rule × ℕ
longest best [] = best
longest best (m ∷ ms) = longest (if ltb best.1 m.1 then m else best) ms

unfoldable pub split_at : ℕ → String → String × String
split_at zero s = ("", s)
split_at (suc n) String.[] = ("", "")
split_at (suc n) (String.◌∷◌ c s) = let parts = split_at n s in (String.◌∷◌ c parts.0, parts.1)

-- The matches in a text, each with its rule and `matched()`; `none` is the fuel running out.
unfoldable pub lexemes : ℕ → String → Option (List (Rule × String))
lexemes fuel String.[] = some []
lexemes zero (String.◌∷◌ c s) = none
lexemes (suc fuel) (String.◌∷◌ c s) =
    let best = longest (any_rule, 0) (matches (String.◌∷◌ c s)) in
    let parts = split_at best.1 (String.◌∷◌ c s) in
    lexemes fuel parts.1 >>= (λ rest. some ((best.0, parts.0) ∷ rest))

-- `std::stoull` of digits.
unfoldable pub decimal_value : ℕ → String → ℕ
decimal_value v String.[] = v
decimal_value v (String.◌∷◌ c s) = decimal_value (10 * v + (code c - 48)) s

unfoldable pub xdigit_value : ℕ → ℕ
xdigit_value c = if leb c 57 then c - 48 else if leb c 70 then c - 55 else c - 87

-- The loop over the pairs, which skips what is between them.
unfoldable pub hexadecimal_value : String → Bytes
hexadecimal_value (String.◌∷◌ c (String.◌∷◌ d (String.◌∷◌ colon s))) =
    (16 * xdigit_value (code c) + xdigit_value (code d)) ∷ hexadecimal_value s
hexadecimal_value (String.◌∷◌ c (String.◌∷◌ d String.[])) =
    (16 * xdigit_value (code c) + xdigit_value (code d)) ∷ []
hexadecimal_value _ = []

-- A character by itself, of which the grammar knows four.
unfoldable pub character : String → Token
character String.[] = other
character (String.◌∷◌ c s) =
    if nat_beq (code c) 46
    then dot
    else if nat_beq (code c) 47
    then slash
    else if nat_beq (code c) 38
    then ampersand
    else if nat_beq (code c) 39
    then quote
    else other

-- The actions. `none` is the token '\0' for a number that is too big.
unfoldable pub token_of : Rule → String → Option Token
token_of insert_rule matched = some insert_entry
token_of modify_rule matched = some modify_entry
token_of delete_rule matched = some delete_entry
token_of begin_rule matched = some begin_transaction_word
token_of end_rule matched = some end_transaction_word
token_of comment_rule matched = some comment
token_of decimal_rule matched =
    if ltb (decimal_value 0 matched) 18446744073709551616
    then some (decimal (decimal_value 0 matched))
    else none
token_of hexadecimal_rule matched = some (hexadecimal (hexadecimal_value matched))
token_of identifier_rule matched = some (identifier matched)
token_of space_rule matched = some space
token_of newline_rule matched = some eol
token_of any_rule matched = some (character matched)

-- The tokens up to the end of the text or to the token '\0', which the parser takes for its end.
unfoldable pub tokens_of : List (Rule × String) → List Token
tokens_of [] = []
tokens_of ((rule, matched) ∷ rest) =
    let later = tokens_of rest in elim (token_of rule matched) [ none ↦ [] | some t ↦ t ∷ later ]

-- The tokens of a line, with fuel of one for each character.
unfoldable pub scan : String → Option (List Token)
scan text = lexemes (count text) text >>= (λ ls. some (tokens_of ls))
