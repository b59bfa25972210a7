-- ===== src/Common/Lists.antt =====
-- Lists measured and indexed by native numbers, under the library's names.
use Prim.Native.Nat.{ℕ, zero, suc, ◌+◌}
use mathlib.Core.Path.{◌≡◌, refl, ap}
use mathlib.Core.Logic.{◌⊎◌, inl, inr}
use mathlib.Core.Bool.{Bool, true, false}
use mathlib.Core.List.{List, [], ◌∷◌, ◌++◌, map}
use mathlib.Core.Option.{Option, none, some}
use native.Mathlib.Omega.{arith}
use pfpsim.Common.Tests.{if◌then◌else◌, Bool-cases}

module _ {ℓ} {A : Type ℓ} where
  abbrev pub length : List A → ℕ
  length [] = 0
  length (x ∷ xs) = suc (length xs)

  abbrev pub get_elem? : List A → ℕ → Option A
  get_elem? [] i = none
  get_elem? (x ∷ xs) zero = some x
  get_elem? (x ∷ xs) (suc i) = get_elem? xs i

  abbrev pub get_or : List A → ℕ → A → A
  get_or [] i d = d
  get_or (x ∷ xs) zero d = x
  get_or (x ∷ xs) (suc i) d = get_or xs i d

  -- A write out of bounds changes nothing.
  abbrev pub set : List A → ℕ → A → List A
  set [] i v = []
  set (x ∷ xs) zero v = v ∷ xs
  set (x ∷ xs) (suc i) v = x ∷ set xs i v

  abbrev pub replicate : ℕ → A → List A
  replicate zero a = []
  replicate (suc n) a = a ∷ replicate n a

  -- `vector::erase` at the first entry that meets the test.
  unfoldable pub erase_first : (A → Bool) → List A → List A
  erase_first p [] = []
  erase_first p (x ∷ xs) = if p x then xs else x ∷ erase_first p xs

  -- A loop that changes the first entry that meets the test and then breaks.
  unfoldable pub update_first : (A → Bool) → (A → A) → List A → List A
  update_first p f [] = []
  update_first p f (x ∷ xs) = if p x then f x ∷ xs else x ∷ update_first p f xs

  -- A loop that looks for an entry that meets the test.
  unfoldable pub any : (A → Bool) → List A → Bool
  any p [] = false
  any p (x ∷ xs) = if p x then true else any p xs

  pub length-append : (xs ys : List A) → length (xs ++ ys) ≡ length xs + length ys
  length-append [] ys = omega arith
  length-append (x ∷ xs) ys = omega (arith, length-append xs ys)

  pub length-set : (xs : List A) (i : ℕ) (v : A) → length (set xs i v) ≡ length xs
  length-set [] i v = refl
  length-set (x ∷ xs) zero v = refl
  length-set (x ∷ xs) (suc i) v = ap suc (length-set xs i v)

  pub length-replicate : (n : ℕ) (a : A) → length (replicate n a) ≡ n
  length-replicate zero a = refl
  length-replicate (suc n) a = ap suc (length-replicate n a)

  pub length-update_first :
      (p : A → Bool) (f : A → A) (xs : List A) → length (update_first p f xs) ≡ length xs
  unfolding update_first
  length-update_first p f [] = refl
  length-update_first p f (x ∷ xs) = ground (arith, length-update_first p f xs)

  -- Nothing meets the test: nothing changes.
  pub erase_first_absent : (p : A → Bool) (xs : List A) → any p xs ≡ false → erase_first p xs ≡ xs
  unfolding any erase_first
  erase_first_absent p [] h = refl
  erase_first_absent p (x ∷ xs) h = ground (arith, erase_first_absent p xs)

  pub length-erase_first :
      (p : A → Bool) (xs : List A) → any p xs ≡ true → suc (length (erase_first p xs)) ≡ length xs
  unfolding any erase_first
  length-erase_first p [] h = cc
  length-erase_first p (x ∷ xs) h = ground (arith, length-erase_first p xs)

  abbrev pub take : ℕ → List A → List A
  take zero xs = []
  take (suc n) [] = []
  take (suc n) (x ∷ xs) = x ∷ take n xs

  -- Erasing an entry at or after a position leaves what stands before it.
  pub get_elem?-erase_first_later :
      (p : A → Bool) (xs : List A) (i : ℕ) (x : A)
      → get_elem? xs i ≡ some x
      → p x ≡ false
      → any p (take i xs) ≡ false
      → get_elem? (erase_first p xs) i ≡ some x
  unfolding any erase_first
  get_elem?-erase_first_later p [] i x e n h = e
  get_elem?-erase_first_later p (y ∷ ys) zero x e n h = ground arith
  get_elem?-erase_first_later p (y ∷ ys) (suc i) x e n h =
      ground (arith, get_elem?-erase_first_later p ys i x e n)

  -- Erasing an earlier one moves the next entry to the position.
  pub get_elem?-erase_first_earlier :
      (p : A → Bool) (xs : List A) (i : ℕ)
      → any p (take i xs) ≡ true
      → get_elem? (erase_first p xs) i ≡ get_elem? xs (suc i)
  unfolding any erase_first
  get_elem?-erase_first_earlier p [] i h = refl
  get_elem?-erase_first_earlier p (y ∷ ys) zero h = absurd (ground arith)
  get_elem?-erase_first_earlier p (y ∷ ys) (suc i) h = elim (Bool-cases (p y)) [
    | inl hit ↦ rw (hit, erase_first)
    | inr miss ↦ rw (miss, erase_first) (get_elem?-erase_first_earlier p ys i (ground arith))
  ]

-- Membership, by recursion.
module _ {A : Type 0} where
  abbrev pub Has : A → List A → Type 0
  Has a [] = ⊥
  Has a (x ∷ xs) = (a ≡ x) ⊎ Has a xs

  pub Has-append_left : (a : A) (xs ys : List A) → Has a xs → Has a (xs ++ ys)
  Has-append_left a [] ys h = absurd h
  Has-append_left a (x ∷ xs) ys (inl e) = inl e
  Has-append_left a (x ∷ xs) ys (inr h) = inr (Has-append_left a xs ys h)

  pub Has-append_right : (a : A) (xs ys : List A) → Has a ys → Has a (xs ++ ys)
  Has-append_right a [] ys h = h
  Has-append_right a (x ∷ xs) ys h = inr (Has-append_right a xs ys h)

  pub Has-append_cases : (a : A) (xs ys : List A) → Has a (xs ++ ys) → Has a xs ⊎ Has a ys
  Has-append_cases a [] ys h = inr h
  Has-append_cases a (x ∷ xs) ys (inl e) = inl (inl e)
  Has-append_cases a (x ∷ xs) ys (inr h) = elim (Has-append_cases a xs ys h) [
    | inl l ↦ inl (inr l)
    | inr r ↦ inr r
  ]

pub Has-map : {A B : Type 0} (f : A → B) (a : A) (xs : List A) → Has a xs → Has (f a) (map f xs)
Has-map f a [] h = absurd h
Has-map f a (x ∷ xs) (inl e) = inl (ap f e)
Has-map f a (x ∷ xs) (inr h) = inr (Has-map f a xs h)
