-- ===== src/Debugger/DataManager/Counters.antt =====
-- The counters that the data manager mirrors.
use pfpsim.Common.{
  ◌≡◌, true, false, none, some, String, arith, ◌==◌, string_eq, if◌then◌else◌, ℤ, pos, minus_one,
  or_else, is_some, Bool-cases, ◌⊎◌, inl, inr,
}
use pfpsim.KeyOrder.{string_order}
use pfpsim.OrderedMap.{find, find-assign, find-insert, find-erase, assign}
use pfpsim.Debugger.DataManager.{
  DataManager, add_counter, remove_counter, update_counter, get_counter_value,
}

module _ {T I : Type 0} where
  abbrev pub HasCounter : String → DataManager T I → Type 0
  HasCounter name m = is_some (find name m.counters) ≡ true

  -- A counter that is added starts at 0 unless it was there; all other counters keep their values.
  pub get_counter_value-add_counter :
      (j k : String) (m : DataManager T I)
      → get_counter_value j (add_counter k m)
        ≡ (if j == k then or_else (find k m.counters) (pos 0) else get_counter_value j m)
  unfolding get_counter_value add_counter
  get_counter_value-add_counter j k m =
      ground (arith, find-insert j k (pos 0) m.counters, string_eq.equal_iff j k)

  pub get_counter_value-remove_counter :
      (j k : String) (m : DataManager T I)
      → get_counter_value j (remove_counter k m)
        ≡ (if j == k then minus_one else get_counter_value j m)
  unfolding get_counter_value remove_counter
  get_counter_value-remove_counter j k m =
      ground (arith, find-erase j k m.counters, string_eq.equal_iff j k)

  -- An update throws exactly when there is no such counter, and otherwise sets that counter alone.
  pub update_counter_cases :
      (k : String) (v : ℤ) (m : DataManager T I)
      → ((is_some (find k m.counters) ≡ false) × (update_counter k v m ≡ none))
        ⊎ ((m' : DataManager T I) × HasCounter k m
            × (update_counter k v m ≡ some m')
            × ((j : String)
                → get_counter_value j m' ≡ (if j == k then v else get_counter_value j m)))
  unfolding get_counter_value update_counter
  update_counter_cases k v m = elim (Bool-cases (is_some (find k m.counters))) [
    | inl there ↦ inr (
      record m { counters = assign k v m.counters },
      there,
      ground arith,
      λ j. ground (arith, find-assign j k v m.counters),
    )
    | inr missing ↦ inl (missing, ground arith)
  ]
