-- ===== src/Common/Tests.antt =====
-- Boolean tests, the conditional, and equality as an instance argument.
use Prim.Native.Nat.{ℕ, compare, Ordering}
use Prim.Native.String.{String}
use mathlib.Core.Path.{◌≡◌, refl}
use mathlib.Core.Logic.{◌↔◌, ◌⊎◌, inl, inr}
use mathlib.Core.Bool.{Bool, true, false}
use mathlib.Core.Option.{Option, none, some}
use native.Mathlib.Omega.{arith}
use text.Mathlib.Text.{◌==◌ as str_eq}
use text.Mathlib.TextEquality.{eq_iff}

abbrev pub ltb : ℕ → ℕ → Bool
ltb a b = elim (compare a b) [ Ordering.lt ↦ true | _ ↦ false ]

abbrev pub leb : ℕ → ℕ → Bool
leb a b = elim (compare a b) [ Ordering.gt ↦ false | _ ↦ true ]

abbrev pub nat_beq : ℕ → ℕ → Bool
nat_beq a b = elim (compare a b) [ Ordering.eq ↦ true | _ ↦ false ]

pub nat_beq_iff : (a b : ℕ) → (nat_beq a b ≡ true) ↔ (a ≡ b)
nat_beq_iff a b = ground arith

infix 1 if◌then◌else◌
abbrev pub if◌then◌else◌ {ℓ} : {A : Type ℓ} → Bool → A → A → A
if true then x else y = x
if false then x else y = y

-- `operator==` of keys, names and identifiers: a test that decides whether two values are equal.
pub record Equality {ℓ} (K : Type ℓ) : Type ℓ where
  pub equal : K → K → Bool
  pub equal_iff : (j k : K) → (equal j k ≡ true) ↔ (j ≡ k)

-- Module, counter and table names.
instance abbrev pub string_eq : Equality String
string_eq = record { equal = str_eq; equal_iff = eq_iff }

infix 50 ◌==◌
abbrev pub ◌==◌ {ℓ} : {K : Type ℓ} ⦃q : Equality K⦄ → K → K → Bool
◌==◌ ⦃q⦄ j k = q.equal j k

-- Sizes and handles.
instance abbrev pub nat_eq : Equality ℕ
nat_eq = record { equal = nat_beq; equal_iff = nat_beq_iff }

pub Bool-cases : (b : Bool) → (b ≡ true) ⊎ (b ≡ false)
Bool-cases true = inl refl
Bool-cases false = inr refl

pub Option-cases {ℓ} : {A : Type ℓ} (o : Option A) → (o ≡ none) ⊎ ((a : A) × (o ≡ some a))
Option-cases none = inl refl
Option-cases (some a) = inr (a, refl)

pub beq_self {ℓ} : {A : Type ℓ} ⦃e : Equality A⦄ (a : A) → (a == a) ≡ true
beq_self ⦃e⦄ a = (e.equal_iff a a).1 refl

pub beq_eq {ℓ} : {A : Type ℓ} ⦃e : Equality A⦄ {a b : A} → (a == b) ≡ true → a ≡ b
beq_eq ⦃e⦄ {a} {b} h = (e.equal_iff a b).0 h

abbrev pub or_else {ℓ} : {A : Type ℓ} → Option A → A → A
or_else none b = b
or_else (some a) b = a

abbrev pub is_some {ℓ} : {A : Type ℓ} → Option A → Bool
is_some none = false
is_some (some a) = true

pub refute : {b : Bool} → ((b ≡ true) → ⊥) → b ≡ false
refute {b = true} h = absurd (h refl)
refute {b = false} h = refl
