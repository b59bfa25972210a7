-- ===== src/Common/Distinct.antt =====
-- Lists in which no earlier entry is related to a later one, and what searching loops do to them.
use mathlib.Core.Path.{◌≡◌, refl, ◌∙◌, fun_ext}
use mathlib.Core.Bool.{Bool, true, false, ◌&&◌}
use mathlib.Core.List.{List, [], ◌∷◌, ◌++◌}
use mathlib.Core.Logic.{inl, inr}
use native.Mathlib.Omega.{arith}
use pfpsim.Common.Tests.{if◌then◌else◌, Bool-cases}
use pfpsim.Common.Lists.{any, erase_first, update_first}

module _ {A : Type 0} (r : A → A → Bool) where
  abbrev pub Apart : List A → Type 0
  Apart [] = Unit {0}
  Apart (x ∷ xs) = (any (r x) xs ≡ false) × Apart xs

module _ {A : Type 0} where
  pub any-append :
      (p : A → Bool) (xs : List A) (y : A) → any p (xs ++ y ∷ []) ≡ (if any p xs then true else p y)
  unfolding any
  any-append p [] y = ground arith
  any-append p (x ∷ xs) y = ground (arith, any-append p xs y)

  any-erase_first :
      (p q : A → Bool) (xs : List A) → any p xs ≡ false → any p (erase_first q xs) ≡ false
  unfolding any erase_first
  any-erase_first p q [] h = refl
  any-erase_first p q (x ∷ xs) h = ground (arith, any-erase_first p q xs)

  any-update_first :
      (p q : A → Bool) (f : A → A) (xs : List A)
      → ((x : A) → p (f x) ≡ p x)
      → any p (update_first q f xs) ≡ any p xs
  unfolding any update_first
  any-update_first p q f [] h = refl
  any-update_first p q f (x ∷ xs) h = ground (arith, any-update_first p q f xs h, h x)

  -- A new entry that no old one is related to goes to the end.
  pub append-Apart :
      (r : A → A → Bool) (xs : List A) (y : A)
      → any (λ x. r x y) xs ≡ false
      → Apart r xs
      → Apart r (xs ++ y ∷ [])
  unfolding any
  append-Apart r [] y h a = (refl, tt)
  append-Apart r (x ∷ xs) y h a =
      (ground (arith, any-append (r x) xs y, a.0), append-Apart r xs y (ground arith) a.1)

  pub erase_first-Apart :
      (r : A → A → Bool) (q : A → Bool) (xs : List A) → Apart r xs → Apart r (erase_first q xs)
  unfolding erase_first
  erase_first-Apart r q [] a = tt
  erase_first-Apart r q (x ∷ xs) a = elim (Bool-cases (q x)) [
    | inl hit ↦ rw hit a.1
    | inr miss ↦ rw miss (any-erase_first (r x) q xs a.0, erase_first-Apart r q xs a.1)
  ]

  pub update_first-Apart :
      (r : A → A → Bool) (q : A → Bool) (f : A → A) (xs : List A)
      → ((x y : A) → r (f x) y ≡ r x y)
      → ((x y : A) → r x (f y) ≡ r x y)
      → Apart r xs
      → Apart r (update_first q f xs)
  unfolding update_first
  update_first-Apart r q f [] l k a = tt
  update_first-Apart r q f (x ∷ xs) l k a = elim (Bool-cases (q x)) [
    | inl hit ↦ rw hit (rw (fun_ext (l x)) a.0, a.1)
    | inr miss ↦
        rw miss (any-update_first (r x) q f xs (k x) ∙ a.0, update_first-Apart r q f xs l k a.1)
  ]

  -- Where no two entries meet the test, a search that erases the first leaves none.
  pub erase_first_clears :
      (p : A → Bool) (xs : List A) → Apart (λ x y. p x && p y) xs → any p (erase_first p xs) ≡ false
  unfolding any erase_first
  erase_first_clears p [] a = refl
  erase_first_clears p (x ∷ xs) a = elim (Bool-cases (p x)) [
    | inl hit ↦ rw hit (only_one p x xs hit a.0)
    | inr miss ↦ rw (miss, any, miss) (erase_first_clears p xs a.1)
  ]
    where
      only_one :
          (p : A → Bool) (x : A) (xs : List A)
          → p x ≡ true
          → any (λ y. p x && p y) xs ≡ false
          → any p xs ≡ false
      only_one p x [] h a = refl
      only_one p x (y ∷ ys) h a = ground (arith, only_one p x ys h)

  pub any-erase_first_other :
      (p q : A → Bool) (xs : List A)
      → ((x : A) → q x ≡ true → p x ≡ false)
      → any p (erase_first q xs) ≡ any p xs
  unfolding any erase_first
  any-erase_first_other p q [] h = refl
  any-erase_first_other p q (x ∷ xs) h = ground (arith, any-erase_first_other p q xs h, h x)

  pub any_mono :
      (p q : A → Bool) (xs : List A)
      → ((x : A) → q x ≡ true → p x ≡ true)
      → any p xs ≡ false
      → any q xs ≡ false
  unfolding any
  any_mono p q [] h a = refl
  any_mono p q (x ∷ xs) h a = ground (arith, any_mono p q xs h, h x)

  pub Apart-mono :
      (r s : A → A → Bool) (xs : List A)
      → ((x y : A) → s x y ≡ true → r x y ≡ true)
      → Apart r xs
      → Apart s xs
  Apart-mono r s [] h a = tt
  Apart-mono r s (x ∷ xs) h a = (any_mono (r x) (s x) xs (h x) a.0, Apart-mono r s xs h a.1)
