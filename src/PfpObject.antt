-- ===== src/PfpObject.antt =====
-- pfpsim/core/PFPObject.cpp and PFPObject.h: the counters of a module and what its observers are told.
pub mod Reports
pub mod Removal
pub mod Overtaking
pub mod DataNotices
pub mod Tree
use pfpsim.Common.{
  ℕ, suc, ◌+◌, ◌-◌, ◌%◌, Bool, true, false, Option, none, some, List, [], ◌∷◌, ◌++◌, String, map,
  ◌==◌, string_eq, nat_eq, if◌then◌else◌, ℤ, pos, negsuc, length, plus64, minus64,
}
use pfpsim.KeyOrder.{string_order}
use pfpsim.OrderedMap.{Map, find, assign, erase, insert}

-- `O` is a pointer to an observer. The counters are 64-bit numbers.
pub record PfpObject (O : Type 0) : Type 0 where
  pub module_name : String
  pub counters : Map String ℕ
  pub observers : List O

-- A call of an observer's method, with the module, the counter and the simulation time.
pub data Call (O T : Type 0) : Type 0 where
  counter_added : O → String → String → T → Call O T
  counter_updated : O → String → String → ℕ → T → Call O T
  counter_removed : O → String → String → T → Call O T

-- What an operation does: its result, the module after it, the calls that it makes at once, and those
-- that it puts into the global queue `events_`.
pub record Effect (O T : Type 0) : Type 0 where
  pub result : Bool
  pub after : PfpObject O
  pub calls : List (Call O T)
  pub events : List (Call O T)

-- `int` amounts are converted to `size_t`; sums and differences wrap around.
unfoldable pub to_size : ℤ → ℕ
to_size (pos n) = n % 18446744073709551616
to_size (negsuc n) = 18446744073709551615 - n

unfoldable pub num_counters : {O : Type 0} → PfpObject O → ℕ
num_counters p = length p.counters

-- `none` is `std::out_of_range`.
unfoldable pub counter_value : {O : Type 0} → String → PfpObject O → Option ℕ
counter_value counter_name p = find counter_name p.counters

module _ {O T : Type 0} where
  unfoldable pub notify_counter_changed : String → ℕ → T → PfpObject O → List (Call O T)
  notify_counter_changed counter_name counter_value sim_time p =
      map (λ o. counter_updated o p.module_name counter_name counter_value sim_time) p.observers

  unfoldable pub notify_counter_added : String → T → PfpObject O → List (Call O T)
  notify_counter_added counter_name sim_time p =
      map (λ o. counter_added o p.module_name counter_name sim_time) p.observers

  unfoldable pub notify_counter_removed : String → T → PfpObject O → List (Call O T)
  notify_counter_removed counter_name sim_time p =
      map (λ o. counter_removed o p.module_name counter_name sim_time) p.observers

  abbrev pub refused : PfpObject O → Effect O T
  refused p = record { result = false; after = p; calls = []; events = [] }

  -- `now` is `sc_time_stamp().to_default_time_units()`.
  unfoldable pub add_counter : String → ℕ → T → PfpObject O → Effect O T
  add_counter counter_name counter_value now p = elim (find counter_name p.counters) [
    | none ↦
        let p' : PfpObject O = record p {
          counters = insert counter_name counter_value p.counters;
        } in
        record {
          result = true;
          after = p';
          calls = notify_counter_added counter_name now p';
          events = [];
        }
    | some v ↦ refused p
  ]

  -- A counter that is there gets a value, and the observers are to be told.
  unfoldable pub changed_to : String → ℕ → T → PfpObject O → Effect O T
  changed_to counter_name v now p =
      let p' : PfpObject O = record p { counters = assign counter_name v p.counters } in
      record {
        result = true;
        after = p';
        calls = [];
        events = notify_counter_changed counter_name v now p';
      }

  unfoldable pub set_counter : String → ℕ → T → PfpObject O → Effect O T
  set_counter counter_name counter_value now p =
      if num_counters p == 0 then refused p else elim (find counter_name p.counters) [
        | none ↦ refused p
        | some v ↦ changed_to counter_name counter_value now p
      ]

  -- `erase` of a name that is not there throws nothing.
  unfoldable pub remove_counter : String → T → PfpObject O → Effect O T
  remove_counter counter_name now p =
      if num_counters p == 0
      then refused p
      else (let p' : PfpObject O = record p { counters = erase counter_name p.counters } in
          record {
            result = true;
            after = p';
            calls = [];
            events = notify_counter_removed counter_name now p';
          })

  unfoldable pub increment_counter : String → T → PfpObject O → Effect O T
  increment_counter counter_name now p = elim (find counter_name p.counters) [
    | none ↦ refused p
    | some v ↦ changed_to counter_name (plus64 v 1) now p
  ]

  unfoldable pub increment_counter_by : String → ℤ → T → PfpObject O → Effect O T
  increment_counter_by counter_name incr_amount now p = elim (find counter_name p.counters) [
    | none ↦ refused p
    | some v ↦ changed_to counter_name (plus64 v (to_size incr_amount)) now p
  ]

  unfoldable pub decrement_counter : String → T → PfpObject O → Effect O T
  decrement_counter counter_name now p = elim (find counter_name p.counters) [
    | none ↦ refused p
    | some v ↦ if v == 0 then refused p else changed_to counter_name (v - 1) now p
  ]

  unfoldable pub decrement_counter_by : String → ℤ → T → PfpObject O → Effect O T
  decrement_counter_by counter_name decr_amount now p = elim (find counter_name p.counters) [
    | none ↦ refused p
    | some v ↦
        if v == 0
        then refused p
        else changed_to counter_name (minus64 v (to_size decr_amount)) now p
  ]

-- The operations that give a counter another value.
pub data Change : Type 0 where
  sets : ℕ → Change
  increments : Change
  increments_by : ℤ → Change
  decrements : Change
  decrements_by : ℤ → Change

module _ {O T : Type 0} where
  abbrev pub change : Change → String → T → PfpObject O → Effect O T
  change (sets v) name now p = set_counter name v now p
  change increments name now p = increment_counter name now p
  change (increments_by n) name now p = increment_counter_by name n now p
  change decrements name now p = decrement_counter name now p
  change (decrements_by n) name now p = decrement_counter_by name n now p
