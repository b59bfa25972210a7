-- ===== src/Configuration/Outcomes.antt =====
-- How the calls of ConfigurationParameters.cpp end: what a chain of calls that gives a value has done.
use pfpsim.Common.{◌≡◌, refl, sym, ◌≢◌, Bool, true, false, if◌then◌else◌}
use pfpsim.Configuration.{
  Outcome, done, error, exits_zero, exits_fatal, exits_missing, throws, undefined, out_of_fuel,
  ◌>>=◌,
}

module _ {A : Type 0} where
  pub done_injective : {a b : A} → Outcome.done a ≡ done b → a ≡ b
  done_injective h = cc

module _ {A B : Type 0} where
  pub bind_done :
      (o : Outcome A) (f : A → Outcome B) (b : B)
      → (o >>= f) ≡ done b
      → (a : A) × (o ≡ done a) × (f a ≡ done b)
  bind_done (done a) f b h = (a, refl, h)
  bind_done (error m) f b h = absurd cc
  bind_done exits_zero f b h = absurd cc
  bind_done exits_fatal f b h = absurd cc
  bind_done exits_missing f b h = absurd cc
  bind_done throws f b h = absurd cc
  bind_done undefined f b h = absurd cc
  bind_done out_of_fuel f b h = absurd cc

-- Two calls end in the same way, and not for want of fuel.
abbrev pub Agree : {A : Type 0} → Outcome A → Outcome A → Type 0
Agree x y = (x ≡ y) × (x ≢ out_of_fuel)

pub bind-Agree :
    {A B : Type 0} (x y : Outcome A) (f g : A → Outcome B)
    → Agree x y
    → ((a : A) → Agree (f a) (g a))
    → Agree (x >>= f) (y >>= g)
bind-Agree (done a) y f g h next = rw (sym h.0) (next a)
bind-Agree (error m) y f g h next = rw (sym h.0) (refl, λ e. cc)
bind-Agree exits_zero y f g h next = rw (sym h.0) (refl, λ e. cc)
bind-Agree exits_fatal y f g h next = rw (sym h.0) (refl, λ e. cc)
bind-Agree exits_missing y f g h next = rw (sym h.0) (refl, λ e. cc)
bind-Agree throws y f g h next = rw (sym h.0) (refl, λ e. cc)
bind-Agree undefined y f g h next = rw (sym h.0) (refl, λ e. cc)
bind-Agree out_of_fuel y f g h next = absurd (h.1 refl)

pub if-Agree :
    {A : Type 0} (b : Bool) (x y : Outcome A)
    → Agree x x
    → Agree y y
    → Agree (if b then x else y) (if b then x else y)
if-Agree true x y p q = p
if-Agree false x y p q = q
