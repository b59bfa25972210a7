-- ===== src/PfpObject/Reports.antt =====
-- PFPObject.cpp: the observers are told the value that a counter then has.
use pfpsim.Common.{
  plus64, minus64, ℕ, ◌-◌, ◌≡◌, refl, ap, sym, subst, ◌∙◌, ◌⊎◌, inl, inr, Bool, true, false, Option,
  none, some, [], ◌∷◌, String, map, arith, ◌==◌, string_eq, nat_eq, if◌then◌else◌, length,
  Bool-cases, Option-cases,
}
use pfpsim.KeyOrder.{string_order}
use pfpsim.OrderedMap.{Map, find, find-assign, find-nil}
use pfpsim.PfpObject.{
  PfpObject, counter_updated, Effect, refused, changed_to, notify_counter_changed, num_counters,
  to_size, set_counter, increment_counter, increment_counter_by, decrement_counter,
  decrement_counter_by, Change, sets, increments, increments_by, decrements, decrements_by, change,
}

-- The value that a change gives to a counter with the value `v`; a counter at 0 is not decremented.
abbrev pub new_value : Change → ℕ → Option ℕ
new_value (sets w) v = some w
new_value increments v = some (plus64 v 1)
new_value (increments_by n) v = some (plus64 v (to_size n))
new_value decrements v = if v == 0 then none else some (v - 1)
new_value (decrements_by n) v = if v == 0 then none else some (minus64 v (to_size n))

abbrev pub change_of : Change → Option ℕ → Option ℕ
change_of c none = none
change_of c (some v) = new_value c v

find-empty :
    {O : Type 0} (name : String) (p : PfpObject O)
    → (num_counters p == 0) ≡ true
    → find name p.counters ≡ none
unfolding num_counters
find-empty name p h = empty p.counters h
  where
    empty : (m : Map String ℕ) → (length m == 0) ≡ true → find name m ≡ none
    empty [] h = find-nil name
    empty (e ∷ m) h = absurd (ground arith)

module _ {O T : Type 0} where
  abbrev pub outcome : String → T → PfpObject O → Option ℕ → Effect O T
  outcome name now p none = refused p
  outcome name now p (some v) = changed_to name v now p

  at_zero :
      (zero_there : Bool) (name : String) (now : T) (p : PfpObject O) (v : ℕ)
      → (if zero_there then refused p else changed_to name v now p)
        ≡ outcome name now p (if zero_there then none else some v)
  at_zero true name now p v = refl
  at_zero false name now p v = refl

  change-outcome :
      (c : Change) (name : String) (now : T) (p : PfpObject O)
      → change c name now p ≡ outcome name now p (change_of c (find name p.counters))
  unfolding set_counter increment_counter increment_counter_by decrement_counter
      decrement_counter_by
  change-outcome (sets w) name now p = elim (Bool-cases (num_counters p == 0)) [
    | inl none_there ↦ rw (set_counter, none_there, find-empty name p none_there) refl
    | inr others ↦ elim (Option-cases (find name p.counters)) [
      | inl e ↦ rw (set_counter, others, e) refl
      | inr (v, e) ↦ rw (set_counter, others, e) refl
    ]
  ]
  change-outcome increments name now p = elim (Option-cases (find name p.counters)) [
    | inl e ↦ rw (increment_counter, e) refl
    | inr (v, e) ↦ rw (increment_counter, e) refl
  ]
  change-outcome (increments_by n) name now p = elim (Option-cases (find name p.counters)) [
    | inl e ↦ rw (increment_counter_by, e) refl
    | inr (v, e) ↦ rw (increment_counter_by, e) refl
  ]
  change-outcome decrements name now p = elim (Option-cases (find name p.counters)) [
    | inl e ↦ rw (decrement_counter, e) refl
    | inr (v, e) ↦ rw (decrement_counter, e) (at_zero (v == 0) name now p (v - 1))
  ]
  change-outcome (decrements_by n) name now p = elim (Option-cases (find name p.counters)) [
    | inl e ↦ rw (decrement_counter_by, e) refl
    | inr (v, e) ↦
        rw (decrement_counter_by, e) (at_zero (v == 0) name now p (minus64 v (to_size n)))
  ]

  -- The counter has the value `v`, all others keep theirs, and an event for each observer, in order,
  -- brings it that value.
  abbrev pub IsTold : String → ℕ → T → PfpObject O → Effect O T → Type 0
  IsTold name v now p x =
      (x.result ≡ true)
      × (x.calls ≡ [])
      × (x.events ≡ map (λ o. counter_updated o p.module_name name v now) p.observers)
      × ((j : String) → find j x.after.counters ≡ (if j == name then some v else find j p.counters))

  changed_to-IsTold :
      (name : String) (v : ℕ) (now : T) (p : PfpObject O)
      → IsTold name v now p (changed_to name v now p)
  unfolding changed_to notify_counter_changed
  changed_to-IsTold name v now p = (refl, refl, refl, λ j. find-assign j name v p.counters)

  -- Setting, incrementing or decrementing a counter is refused without effect exactly where there
  -- is no such counter or a counter at 0 is decremented. Otherwise that counter alone gets the
  -- new value, and one event for each observer, in their order, is queued with that value.
  pub change_cases :
      (c : Change) (name : String) (now : T) (p : PfpObject O)
      → ((change_of c (find name p.counters) ≡ none) × (change c name now p ≡ refused p))
        ⊎ ((v : ℕ) × (change_of c (find name p.counters) ≡ some v)
            × IsTold name v now p (change c name now p))
  change_cases c name now p = elim (Option-cases (change_of c (find name p.counters))) [
    | inl e ↦ inl (e, change-outcome c name now p ∙ ap (outcome name now p) e)
    | inr (v, e) ↦ inr (
      v,
      e,
      subst (IsTold name v now p) (sym (change-outcome c name now p ∙ ap (outcome name now p) e))
          (changed_to-IsTold name v now p),
    )
  ]
