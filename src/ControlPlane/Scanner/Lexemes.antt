-- ===== src/ControlPlane/Scanner/Lexemes.antt =====
-- pfpsim/core/cp/tokens.l: no character of a line is lost.
use Prim.Native.Char.{Char, code}
use Prim.Native.String.{count, ◌++◌ as ◌++s◌}
use Prim.Native.String.count.{nil as count_nil, cons as count_cons}
use Prim.Native.String.append.{nil as append_nil, cons as append_cons}
use pfpsim.Common.{
  ℕ, zero, suc, ◌≤◌, ◌≡◌, refl, ap, ◌∙◌, sym, subst, some, List, [], ◌∷◌, String, if◌then◌else◌,
  ltb, nat_beq, arith, Bool-cases, inl, inr, Has,
}
use pfpsim.ControlPlane.Scanner.{
  Rule, newline_rule, any_rule, newline_length, any_length, matches, longest, split_at, lexemes,
  tokens_of, scan,
}
use pfpsim.ControlPlane.Scanner.Lengths.{longest-count, longest-among}

-- The matches of the lexemes, put together.
abbrev pub text_of : List (Rule × String) → String
text_of [] = ""
text_of ((rule, matched) ∷ rest) = matched ++s text_of rest

-- No match is longer than the one that is taken.
longest-best : (best : Rule × ℕ) (ms : List (Rule × ℕ)) → best.1 ≤ (longest best ms).1
unfolding longest
longest-best best [] = omega arith
longest-best best (m ∷ ms) = elim (Bool-cases (ltb best.1 m.1)) [
  | inl longer ↦
      let step : m.1 ≤ (longest m ms).1 = longest-best m ms in
      rw (longest, longer) (ground (arith, step, longer))
  | inr not_longer ↦ rw (longest, not_longer) (longest-best best ms)
]

pub longest-Has : (best m : Rule × ℕ) (ms : List (Rule × ℕ)) → Has m ms → m.1 ≤ (longest best ms).1
unfolding longest
longest-Has best m [] h = absurd h
longest-Has best m (x ∷ ms) (inr h) = longest-Has (if ltb best.1 x.1 then x else best) m ms h
longest-Has best m (x ∷ ms) (inl e) = elim (Bool-cases (ltb best.1 x.1)) [
  | inl longer ↦
      let step : x.1 ≤ (longest x ms).1 = longest-best x ms in
      rw (longest, longer) (omega (arith, step, ap (λ p. p.1) e))
  | inr not_longer ↦
      let step : best.1 ≤ (longest best ms).1 = longest-best best ms in
      rw (longest, not_longer) (ground (arith, step, not_longer, ap (λ p. p.1) e))
]

-- Every character is matched by a rule.
longest-matches : (c : Char) (s : String) → 1 ≤ (longest (any_rule, 0) (matches (String.◌∷◌ c s))).1
unfolding matches newline_length any_length
longest-matches c s = elim (Bool-cases (nat_beq (code c) 10)) [
  | inl newline ↦
      let one : newline_length (String.◌∷◌ c s) ≡ 1 = rw newline refl in
      let bound : newline_length (String.◌∷◌ c s)
          ≤ (longest (any_rule, 0) (matches (String.◌∷◌ c s))).1 =
        longest-Has (any_rule, 0) (newline_rule, newline_length (String.◌∷◌ c s)) _
          (inr (inr (inr (inr (inr (inr (inr (inr (inr (inr (inl refl))))))))))) in
      omega (arith, one, bound)
  | inr not_newline ↦
      let one : any_length (String.◌∷◌ c s) ≡ 1 = rw not_newline refl in
      let bound : any_length (String.◌∷◌ c s)
          ≤ (longest (any_rule, 0) (matches (String.◌∷◌ c s))).1 =
        longest-Has (any_rule, 0) (any_rule, any_length (String.◌∷◌ c s)) _
          (inr (inr (inr (inr (inr (inr (inr (inr (inr (inr (inr (inl refl)))))))))))) in
      omega (arith, one, bound)
]

append-split_at : (n : ℕ) (s : String) → (split_at n s).0 ++s (split_at n s).1 ≡ s
unfolding split_at
append-split_at zero s = append_nil s
append-split_at (suc n) String.[] = append_nil ""
append-split_at (suc n) (String.◌∷◌ c s) =
    append_cons c (split_at n s).0 (split_at n s).1 ∙ ap (String.◌∷◌ c) (append-split_at n s)

count-split_at : (n : ℕ) (s : String) → count (split_at n s).1 ≤ count s
unfolding split_at
count-split_at zero s = omega arith
count-split_at (suc n) String.[] = omega arith
count-split_at (suc n) (String.◌∷◌ c s) = omega (arith, count-split_at n s, count_cons c s)

-- A part after a match is shorter.
count-shorter :
    (n : ℕ) (c : Char) (s : String) → 1 ≤ n → count (split_at n (String.◌∷◌ c s)).1 ≤ count s
unfolding split_at
count-shorter zero c s h = absurd (omega arith)
count-shorter (suc n) c s h = count-split_at n s

count-split : (n : ℕ) (s : String) → n ≤ count s → count (split_at n s).0 ≡ n
unfolding split_at
count-split zero s h = count_nil
count-split (suc n) String.[] h = absurd (omega (arith, count_nil))
count-split (suc n) (String.◌∷◌ c s) h =
    count_cons c (split_at n s).0 ∙ ap suc (count-split n s (omega (arith, count_cons c s)))

-- Each lexeme is a match of its rule at its place, and no rule has a longer one there.
unfoldable pub AreLongest : List (Rule × String) → Type 0
AreLongest [] = Unit {0}
AreLongest ((rule, matched) ∷ rest) =
    Has (rule, count matched) (matches (matched ++s text_of rest))
    × ((other : Rule × ℕ)
        → Has other (matches (matched ++s text_of rest))
        → other.1 ≤ count matched)
    × AreLongest rest

-- The lexeme that is taken at the start of a text.
first-Longest :
    (c : Char) (s : String)
    → let best = longest (any_rule, 0) (matches (String.◌∷◌ c s)) in
      let matched = (split_at best.1 (String.◌∷◌ c s)).0 in
      Has (best.0, count matched) (matches (String.◌∷◌ c s))
      × ((other : Rule × ℕ) → Has other (matches (String.◌∷◌ c s)) → other.1 ≤ count matched)
first-Longest c s =
    let best = longest (any_rule, 0) (matches (String.◌∷◌ c s)) in
    let all = count-split best.1 (String.◌∷◌ c s) (longest-count any_rule (String.◌∷◌ c s)) in
    (
      elim (longest-among (any_rule, 0) (matches (String.◌∷◌ c s))) [
        | inl e ↦ absurd (omega (arith, ap (λ m. m.1) e, longest-matches c s))
        | inr h ↦ subst (λ n. Has (best.0, n) (matches (String.◌∷◌ c s))) (sym all) h
      ],
      λ other h. omega (arith, all, longest-Has (any_rule, 0) other (matches (String.◌∷◌ c s)) h),
    )

-- With fuel of one for each character, a text is taken apart to its end.
lexemes-AreLongest :
    (fuel : ℕ) (s : String)
    → count s ≤ fuel
    → (ls : List (Rule × String)) × (lexemes fuel s ≡ some ls) × (text_of ls ≡ s) × AreLongest ls
unfolding lexemes AreLongest
lexemes-AreLongest fuel String.[] h = ([], refl, refl, tt)
lexemes-AreLongest zero (String.◌∷◌ c s) h = absurd (omega (arith, count_cons c s))
lexemes-AreLongest (suc fuel) (String.◌∷◌ c s) h =
    let best = longest (any_rule, 0) (matches (String.◌∷◌ c s)) in
    let parts = split_at best.1 (String.◌∷◌ c s) in
    let shorter = count-shorter best.1 c s (longest-matches c s) in
    let (ls, e, together, longests) =
      lexemes-AreLongest fuel parts.1 (omega (arith, shorter, count_cons c s)) in
    let whole : parts.0 ++s text_of ls ≡ String.◌∷◌ c s =
      ap (λ t. parts.0 ++s t) together ∙ append-split_at best.1 (String.◌∷◌ c s) in
    let (among, no_longer) = first-Longest c s in
    (
      (best.0, parts.0) ∷ ls,
      rw e refl,
      whole,
      (
        subst (λ t. Has (best.0, count parts.0) (matches t)) (sym whole) among,
        subst (λ t. (other : Rule × ℕ) → Has other (matches t) → other.1 ≤ count parts.0)
            (sym whole) no_longer,
        longests,
      ),
    )

-- The scanner ends on every line. Its tokens are those of pieces that put together are the line, and each
-- piece is a match of its rule at its place, where no rule has a longer one.
pub scan-AreLongest :
    (text : String)
    → (ls : List (Rule × String)) × (scan text ≡ some (tokens_of ls))
      × (text_of ls ≡ text)
      × AreLongest ls
unfolding scan
scan-AreLongest text =
    let (ls, e, whole, longests) = lexemes-AreLongest (count text) text (omega arith) in
    (ls, rw e refl, whole, longests)
