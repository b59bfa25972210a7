-- ===== src/Debugger/Server/Conditions.antt =====
-- DebuggerIPCServer.cpp: the loop of handleSetBreakpoint over the conditions.
use pfpsim.Common.{
  ◌≡◌, refl, sym, ◌∙◌, subst, Bool, true, false, ◌||◌, Option, none, some, List, [], ◌∷◌, String,
  ◌==◌, if◌then◌else◌, Bool-cases, inl, inr, or_else, some_injective,
}
use pfpsim.OrderedMap.{Map, find, insert, find-insert}
use pfpsim.Debugger.Breakpoint.{
  Condition, break_at_time, condition_eq, condition_order, Breakpoint, add_condition,
}
use pfpsim.Debugger.Server.{with_conditions}
use pfpsim.Debugger.Server.Asked.{given, gives_time}

-- The first of two values.
abbrev pub or_given : Option String → Option String → Option String
or_given (some value) later = some value
or_given none later = later

or_given-none : (o : Option String) → or_given o none ≡ o
or_given-none (some value) = refl
or_given-none none = refl

-- What the loop over the conditions makes of a breakpoint.
abbrev pub IsAdded : List Condition → List String → Breakpoint → Breakpoint → Type 0
IsAdded conditions values br br' =
    ((c : Condition)
      → find c br'.conditions ≡ or_given (find c br.conditions) (given c conditions values))
    × (br'.temp ≡ gives_time conditions || br.temp)
    × (br'.disabled ≡ br.disabled)
    × (br'.id ≡ br.id)

-- One round of it, for a test that says whether the condition is a time.
abbrev timed : Bool → Breakpoint → Breakpoint
timed t br = if t then record br { temp = true } else br

given-insert :
    (c x : Condition) (value : String) (m : Map Condition String) (later : Option String)
    → or_given (find c (insert x value m)) later
      ≡ or_given (find c m) (if c == x then some value else later)
given-insert c x value m later = elim (Bool-cases (c == x)) [
  | inr other ↦ rw (find-insert c x value m, other) refl
  | inl same ↦
      let e : c ≡ x = (condition_eq.equal_iff c x).0 same in
      rw (find-insert c x value m, same, e) (first (find x m))
]
  where
    first : (o : Option String) → some (or_else o value) ≡ or_given o (some value)
    first none = refl
    first (some v) = refl

IsAdded-timed :
    (t : Bool) (x : Condition) (conditions : List Condition) (value : String) (values : List String)
    (br br' : Breakpoint)
    → t ≡ (x == break_at_time)
    → IsAdded conditions values (timed t (add_condition x value br)) br'
    → IsAdded (x ∷ conditions) (value ∷ values) br br'
unfolding add_condition
IsAdded-timed true x conditions value values br br' e (all, temp, disabled, id) = (
  λ c. all c ∙ given-insert c x value br.conditions (given c conditions values),
  temp ∙ or_true (gives_time conditions) ∙ (rw (sym e) refl),
  disabled,
  id,
)
  where
    or_true : (b : Bool) → b || true ≡ true
    or_true true = refl
    or_true false = refl
IsAdded-timed false x conditions value values br br' e (all, temp, disabled, id) = (
  λ c. all c ∙ given-insert c x value br.conditions (given c conditions values),
  temp ∙ (rw (sym e) refl),
  disabled,
  id,
)

-- The loop gives each condition the first value that is given for it, and makes the breakpoint temporary
-- for a time.
pub with_conditions-IsAdded :
    (conditions : List Condition) (values : List String) (br br' : Breakpoint)
    → with_conditions conditions values br ≡ some br'
    → IsAdded conditions values br br'
unfolding with_conditions
with_conditions-IsAdded [] values br br' h =
    subst (IsAdded [] values br) (some_injective h)
      (λ c. sym (or_given-none (find c br.conditions)), refl, refl, refl)
with_conditions-IsAdded (x ∷ conditions) [] br br' h = absurd cc
with_conditions-IsAdded (x ∷ conditions) (value ∷ values) br br' h =
    IsAdded-timed (x == break_at_time) x conditions value values br br' refl
      (with_conditions-IsAdded conditions values _ br' h)
