-- ===== src/ControlPlane/Scanner/Lengths.antt =====
-- pfpsim/core/cp/tokens.l: no match goes past the end of the text.
use Prim.Native.Char.{code}
use Prim.Native.String.{count}
use Prim.Native.String.count.{nil as count_nil, cons as count_cons}
use pfpsim.Common.{
  ℕ, suc, ◌+◌, ◌≤◌, ◌≡◌, refl, ap, ◌∙◌, Bool, true, false, ◌||◌, List, [], ◌∷◌, String,
  if◌then◌else◌, ltb, nat_beq, arith, Bool-cases, inl, inr, Has, ◌⊎◌,
}
use pfpsim.Hierarchy.{begins_with}
use pfpsim.ControlPlane.Scanner.{
  Rule, is_alpha, is_digit, is_blank, span, word, comment_length, identifier_length, more_pairs,
  hexadecimal_length, newline_length, any_length, matches, longest,
}

span-count : (test : ℕ → Bool) (s : String) → span test s ≤ count s
unfolding span
span-count test String.[] = omega arith
span-count test (String.◌∷◌ c s) = elim (Bool-cases (test (code c))) [
  | inl passes ↦ rw passes (omega (arith, count_cons c s, span-count test s))
  | inr fails ↦ rw fails (omega arith)
]

begins_with-count : (w s : String) → begins_with s w ≡ true → count w ≤ count s
unfolding begins_with
begins_with-count String.[] s h = omega (arith, count_nil)
begins_with-count (String.◌∷◌ d t) String.[] h = ground (arith, h)
begins_with-count (String.◌∷◌ d t) (String.◌∷◌ c s) h = elim (Bool-cases (begins_with s t)) [
  | inl same ↦ omega (arith, begins_with-count t s same, count_cons d t, count_cons c s)
  | inr differs ↦ ground (arith, differs, h)
]

word-count : (w s : String) → word w s ≤ count s
unfolding word
word-count w s = elim (Bool-cases (begins_with s w)) [
  | inl begins ↦ rw begins (begins_with-count w s begins)
  | inr not_there ↦ rw not_there (omega arith)
]

-- A guard, and a character before a match.
if-count : (b : Bool) (n m : ℕ) → n ≤ m → (if b then n else 0) ≤ m
if-count true n m h = h
if-count false n m h = omega arith

comment_length-count : (s : String) → comment_length s ≤ count s
unfolding comment_length
comment_length-count String.[] = omega arith
comment_length-count (String.◌∷◌ c s) =
    if-count (nat_beq (code c) 35) _ _ (omega (arith, count_cons c s, span-count _ s))

identifier_length-count : (s : String) → identifier_length s ≤ count s
unfolding identifier_length
identifier_length-count String.[] = omega arith
identifier_length-count (String.◌∷◌ c s) =
    if-count _ (suc (span (λ d. is_alpha d || is_digit d || nat_beq d 95) s)) _
      (omega (arith, count_cons c s, span-count (λ d. is_alpha d || is_digit d || nat_beq d 95) s))

newline_length-count : (s : String) → newline_length s ≤ count s
unfolding newline_length
newline_length-count String.[] = omega arith
newline_length-count (String.◌∷◌ c s) =
    if-count (nat_beq (code c) 10) 1 _ (omega (arith, count_cons c s))

any_length-count : (s : String) → any_length s ≤ count s
unfolding any_length
any_length-count String.[] = omega arith
any_length-count (String.◌∷◌ c s) = elim (Bool-cases (nat_beq (code c) 10)) [
  | inl newline ↦ rw newline (omega arith)
  | inr other ↦ rw other (omega (arith, count_cons c s))
]

more_pairs-count : (s : String) → more_pairs s ≤ count s
unfolding more_pairs
more_pairs-count String.[] = omega arith
more_pairs-count (String.◌∷◌ a String.[]) = omega arith
more_pairs-count (String.◌∷◌ a (String.◌∷◌ b String.[])) = omega arith
more_pairs-count (String.◌∷◌ a (String.◌∷◌ b (String.◌∷◌ c s))) = if-count _ (3 + more_pairs s) _ (
    omega (
      arith,
      count_cons a (String.◌∷◌ b (String.◌∷◌ c s)),
      count_cons b (String.◌∷◌ c s),
      count_cons c s,
      more_pairs-count s,
    ))

hexadecimal_length-count : (s : String) → hexadecimal_length s ≤ count s
unfolding hexadecimal_length
hexadecimal_length-count String.[] = omega arith
hexadecimal_length-count (String.◌∷◌ a String.[]) = omega arith
hexadecimal_length-count (String.◌∷◌ a (String.◌∷◌ b s)) =
    if-count _ (2 + more_pairs s) _
      (omega (arith, count_cons a (String.◌∷◌ b s), count_cons b s, more_pairs-count s))

-- Every entry of a list is short enough.
abbrev AllWithin : ℕ → List (Rule × ℕ) → Type 0
AllWithin n [] = Unit {0}
AllWithin n (m ∷ ms) = (m.1 ≤ n) × AllWithin n ms

matches-AllWithin : (s : String) → AllWithin (count s) (matches s)
unfolding matches
matches-AllWithin s = (
  word-count "insert_entry" s,
  (
    word-count "modify_entry" s,
    (
      word-count "delete_entry" s,
      (
        word-count "begin transaction" s,
        (
          word-count "end transaction" s,
          (
            comment_length-count s,
            (
              span-count is_digit s,
              (
                hexadecimal_length-count s,
                (
                  identifier_length-count s,
                  (span-count is_blank s, (newline_length-count s, (any_length-count s, tt))),
                ),
              ),
            ),
          ),
        ),
      ),
    ),
  ),
)

longest-AllWithin :
    (n : ℕ) (best : Rule × ℕ) (ms : List (Rule × ℕ))
    → best.1 ≤ n
    → AllWithin n ms
    → (longest best ms).1 ≤ n
unfolding longest
longest-AllWithin n best [] h hs = h
longest-AllWithin n best (m ∷ ms) h (first, hs) = elim (Bool-cases (ltb best.1 m.1)) [
  | inl longer ↦ rw (longest, longer) (longest-AllWithin n m ms first hs)
  | inr not_longer ↦ rw (longest, not_longer) (longest-AllWithin n best ms h hs)
]

-- The match that is taken lies in the text.
pub longest-count : (rule : Rule) (s : String) → (longest (rule, 0) (matches s)).1 ≤ count s
longest-count rule s =
    longest-AllWithin (count s) (rule, 0) (matches s) (omega arith) (matches-AllWithin s)

-- It is one of the matches, or the one to begin with.
pub longest-among :
    (best : Rule × ℕ) (ms : List (Rule × ℕ)) → (longest best ms ≡ best) ⊎ Has (longest best ms) ms
unfolding longest
longest-among best [] = inl refl
longest-among best (m ∷ ms) = elim (longest-among (if ltb best.1 m.1 then m else best) ms) [
  | inr h ↦ inr (inr h)
  | inl e ↦ elim (Bool-cases (ltb best.1 m.1)) [
    | inl longer ↦ inr (inl (e ∙ ap (λ t. if t then m else best) longer))
    | inr not_longer ↦ inl (e ∙ ap (λ t. if t then m else best) not_longer)
  ]
]
