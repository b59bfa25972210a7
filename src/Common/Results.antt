-- ===== src/Common/Results.antt =====
-- Chains of steps that may end the run: `none` is the end by an exception or by undefined behaviour.
use mathlib.Core.Path.{◌≡◌, refl, subst}
use mathlib.Core.Bool.{Bool, true, false}
use mathlib.Core.Option.{Option, none, some}
use pfpsim.Common.Tests.{if◌then◌else◌}

infixl 5 ◌>>=◌
abbrev pub ◌>>=◌ {ℓ κ} : {A : Type ℓ} {B : Type κ} → Option A → (A → Option B) → Option B
none >>= f = none
some a >>= f = f a

pub some_injective : {A : Type 0} {a b : A} → some a ≡ some b → a ≡ b
some_injective h = cc

-- What every result of the continuation has, the whole has.
pub bind_keeps :
    {A B : Type 0} (P : B → Type 0) (o : Option A) (f : A → Option B)
    → ((a : A) (b : B) → o ≡ some a → f a ≡ some b → P b)
    → (b : B) → (o >>= f) ≡ some b
    → P b
bind_keeps P none f k b h = absurd cc
bind_keeps P (some a) f k b h = k a b refl h

-- What the results of both branches have, the test has.
pub if_keeps :
    {B : Type 0} (P : B → Type 0) (c : Bool) (x y : Option B)
    → ((b : B) → x ≡ some b → P b)
    → ((b : B) → y ≡ some b → P b)
    → (b : B) → (if c then x else y) ≡ some b
    → P b
if_keeps P true x y f g b h = f b h
if_keeps P false x y f g b h = g b h

pub some_keeps : {B : Type 0} (P : B → Type 0) (a : B) → P a → (b : B) → some a ≡ some b → P b
some_keeps P a p b h = subst P (some_injective h) p
