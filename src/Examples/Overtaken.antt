-- ===== src/Examples/Overtaken.antt =====
-- A counter is removed and added again at once.
use pfpsim.Common.{◌≡◌, refl, some, [], ◌∷◌, String, ℤ, pos, minus_one}
use pfpsim.OrderedMap.{find}
use pfpsim.Debugger.DataManager.{DataManager, init, get_counter_value}
use pfpsim.Debugger.Observer.{Client, notify_all}
use pfpsim.PfpObject.{PfpObject, counter_value}
use pfpsim.PfpObject.Overtaking.{observed_by, added_again, heard, added_again_overtakes}
use pfpsim.Examples.Times.{int_double}

abbrev silent : Client ℤ String
silent msg m = []

abbrev parser : PfpObject String
parser = observed_by "debugger" "parser" (("drops", 2) ∷ [])

added_again_overtakes_example :
    (counter_value "drops" (added_again "drops" 4 (pos 9) parser).after ≡ some 4)
    × ((m' : DataManager ℤ String) × (notify_all silent (heard "drops" 4 (pos 9) parser) init
          ≡ some (m', []))
        × (get_counter_value "drops" m' ≡ minus_one))
unfolding find
added_again_overtakes_example =
    added_again_overtakes silent "drops" 2 4 (pos 9) "debugger" "parser" (("drops", 2) ∷ []) init
      refl
