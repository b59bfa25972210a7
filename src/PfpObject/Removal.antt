-- ===== src/PfpObject/Removal.antt =====
-- PFPObject.cpp: removing a counter, and taking more from a counter than it has.
use pfpsim.Common.{
  minus64, ℕ, ◌-◌, ◌<◌, ◌≡◌, ◌≢◌, refl, inl, inr, true, none, some, [], String, map, arith, ◌==◌,
  string_eq, nat_eq, pos, Bool-cases, beq_self, ◌∷◌, ◌∙◌,
}
use pfpsim.KeyOrder.{string_order}
use pfpsim.OrderedMap.{Map, find, erase}
use pfpsim.PfpObject.Reports.{change_cases}
use pfpsim.PfpObject.{
  decrements_by, PfpObject, counter_removed, num_counters, to_size, remove_counter,
  notify_counter_removed, decrement_counter_by,
}

erase_missing : (name : String) (m : Map String ℕ) → find name m ≡ none → erase name m ≡ m
unfolding find erase
erase_missing name [] h = refl
erase_missing name ((j, v) ∷ m) h = ground (arith, erase_missing name m)

module _ {O T : Type 0} where
  -- In a module that has a counter, the removal of a name that is not there reports success,
  -- changes no counter, and queues an event of a removal for every observer.
  pub remove_counter_missing :
      (name : String) (now : T) (p : PfpObject O)
      → find name p.counters ≡ none
      → num_counters p ≢ 0
      → ((remove_counter name now p).result ≡ true)
        × ((remove_counter name now p).after.counters ≡ p.counters)
        × ((remove_counter name now p).events
            ≡ map (λ o. counter_removed o p.module_name name now) p.observers)
  unfolding remove_counter notify_counter_removed
  remove_counter_missing name now p h n = elim (Bool-cases (num_counters p == 0)) [
    | inl e ↦ absurd (ground arith)
    | inr e ↦ rw (remove_counter, e) (refl, erase_missing name p.counters h, refl)
  ]

  -- Decrementing a counter that is not 0 by an amount above its value, below 2^31, reports
  -- success and leaves 2^64 less the difference.
  pub decrement_counter_by_wraps :
      (name : String) (v amount : ℕ) (now : T) (p : PfpObject O)
      → find name p.counters ≡ some v
      → 0 < v
      → v < amount
      → amount < 2147483648
      → ((decrement_counter_by name (pos amount) now p).result ≡ true)
        × (find name (decrement_counter_by name (pos amount) now p).after.counters
            ≡ some (18446744073709551616 - (amount - v)))
  unfolding to_size minus64
  decrement_counter_by_wraps name v amount now p h lo hi small =
      elim (change_cases (decrements_by (pos amount)) name now p) [
        | inl (e, same) ↦ absurd (ground arith)
        | inr (w, e, told) ↦ (told.0, told.3 name ∙ ground (arith, beq_self name))
      ]
