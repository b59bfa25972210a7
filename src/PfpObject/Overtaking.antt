-- ===== src/PfpObject/Overtaking.antt =====
-- PFPObject.cpp with DebugObserver.cpp: the observers hear of an addition at once, and of a removal only
-- when the queue of events is emptied, so that an addition overtakes a removal.
use pfpsim.Common.{
  ℕ, ◌≡◌, refl, ◌∙◌, true, false, some, List, [], ◌∷◌, ◌++◌, String, map, arith, ◌==◌, nat_eq,
  string_eq, minus_one, length, Bool-cases, inl, inr, beq_self,
}
use pfpsim.KeyOrder.{string_order}
use pfpsim.OrderedMap.{Map, find, erase, find-erase, find-insert, insert, find-nil}
use pfpsim.Double.{Double}
use pfpsim.Debugger.DataManager.{DataManager, get_counter_value, set_simulation_time}
use pfpsim.Debugger.DataManager as Manager
use pfpsim.Debugger.DataManager.Counters.{get_counter_value-remove_counter}
use pfpsim.Debugger.Observer as Observer
use pfpsim.Debugger.Observer.{
  Client, Notification, counter_is_added, counter_is_removed, counter_is_updated,
  update_simulation_time, notify, notify_all,
}
use pfpsim.PfpObject.{
  PfpObject, Call, counter_added, counter_updated, counter_removed, Effect, num_counters,
  add_counter, remove_counter, counter_value, notify_counter_added, notify_counter_removed,
}

-- The notice that a call brings the debugger; it takes no account of the module.
abbrev pub delivered : {O T I : Type 0} → Call O T → Notification T I
delivered (counter_added o module_name name time) = counter_is_added name time
delivered (counter_updated o module_name name v time) = counter_is_updated name v time
delivered (counter_removed o module_name name time) = counter_is_removed name time

has_counters :
    (name : String) (w : ℕ) (cs : Map String ℕ) → find name cs ≡ some w → (length cs == 0) ≡ false
has_counters name w [] h = absurd (ground (arith, find-nil {V = ℕ} name))
has_counters name w (c ∷ cs) h = ground arith

update_simulation_time-value :
    {T I : Type 0} ⦃d : Double T⦄ (name : String) (t : T) (m : DataManager T I)
    → get_counter_value name (update_simulation_time t m) ≡ get_counter_value name m
unfolding update_simulation_time set_simulation_time get_counter_value
update_simulation_time-value ⦃d⦄ name t m = elim (Bool-cases (d.less m.simulation_time t)) [
  | inl h ↦ rw h refl
  | inr h ↦ rw h refl
]

-- A module with one observer.
abbrev pub observed_by : {O : Type 0} → O → String → Map String ℕ → PfpObject O
observed_by o module_name cs = record {
  module_name = module_name;
  counters = cs;
  observers = o ∷ [];
}

module _ {O T : Type 0} where
  abbrev pub removed : String → T → PfpObject O → Effect O T
  removed name now p = remove_counter name now p

  abbrev pub added_again : String → ℕ → T → PfpObject O → Effect O T
  added_again name v now p = add_counter name v now (removed name now p).after

  removed-known :
      (name : String) (w : ℕ) (now : T) (o : O) (module_name : String) (cs : Map String ℕ)
      → find name cs ≡ some w
      → removed name now (observed_by o module_name cs) ≡ record {
        result = true;
        after = observed_by o module_name (erase name cs);
        calls = [];
        events = counter_removed o module_name name now ∷ [];
      }
  unfolding remove_counter num_counters notify_counter_removed
  removed-known name w now o module_name cs h =
      rw (remove_counter, num_counters, has_counters name w cs h) refl

  readded :
      (name : String) (v : ℕ) (now : T) (o : O) (module_name : String) (cs : Map String ℕ)
      → add_counter name v now (observed_by o module_name (erase name cs)) ≡ record {
        result = true;
        after = observed_by o module_name (insert name v (erase name cs));
        calls = counter_added o module_name name now ∷ [];
        events = [];
      }
  unfolding add_counter notify_counter_added
  readded name v now o module_name cs =
      rw (add_counter, find-erase name name cs, beq_self name) refl

  -- What the debugger hears of, where the queue is emptied after both.
  abbrev pub heard : {I : Type 0} → String → ℕ → T → PfpObject O → List (Notification T I)
  heard name v now p =
      map delivered ((added_again name v now p).calls ++ (removed name now p).events)

module _ {O T I : Type 0} ⦃d : Double T⦄ (client : Client T I) where
  -- Where a module with one observer removes a counter that it has and adds it again before the queue of
  -- events is emptied, the module then has the counter with its new value, and the debugger, once it has
  -- heard of both, has no such counter.
  pub added_again_overtakes :
      (name : String) (w v : ℕ) (now : T) (o : O) (module_name : String) (cs : Map String ℕ)
      (m : DataManager T I)
      → find name cs ≡ some w
      → (counter_value name (added_again name v now (observed_by o module_name cs)).after ≡ some v)
        × ((m' : DataManager T I) × (notify_all client
                (heard name v now (observed_by o module_name cs))
                m
              ≡ some (m', []))
            × (get_counter_value name m' ≡ minus_one))
  unfolding counter_value notify_all notify Observer.counter_added Observer.counter_removed
  added_again_overtakes name w v now o module_name cs m h =
      rw (removed-known name w now o module_name cs h, readded name v now o module_name cs)
        (
          ground (
            arith,
            find-insert name name v (erase name cs),
            find-erase name name cs,
            beq_self name,
          ),
          (
            update_simulation_time now (
                Manager.remove_counter name
                  (update_simulation_time now (Manager.add_counter name m))),
            refl,
            update_simulation_time-value name now _
                ∙ get_counter_value-remove_counter name name _
                ∙ rw (beq_self name) refl,
          ),
        )
