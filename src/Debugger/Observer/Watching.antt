-- ===== src/Debugger/Observer/Watching.antt =====
-- DebugObserver.cpp: where an update of a counter stops the simulation.
use pfpsim.Common.{
  ◌≡◌, Bool, not, ◌&&◌, List, [], ◌∷◌, String, ◌==◌, nat_eq, string_eq, if◌then◌else◌, ℤ,
}
use pfpsim.Double.{Double}
use pfpsim.KeyOrder.{string_order}
use pfpsim.Debugger.Watchpoint.{Watchpoint}
use pfpsim.Debugger.Message.{StopMessage, watchpoint_hit}
use pfpsim.Debugger.DataManager.{DataManager}
use pfpsim.Debugger.DataManager.Operations.{run}
use pfpsim.Debugger.Observer.{Client, Outgoing, stop}

abbrev pub watches : String → Watchpoint → Bool
watches name w = (name == w.counter_name) && not w.disabled

-- The stops for the enabled watchpoints of a list on a counter.
abbrev pub stops : {T : Type 0} → String → ℤ → ℤ → List Watchpoint → List (Outgoing T)
stops name old_v new_v [] = []
stops name old_v new_v (w ∷ ws) =
    if watches name w
    then stop (watchpoint_hit w.id name old_v new_v) ∷ stops name old_v new_v ws
    else stops name old_v new_v ws

module _ {T I : Type 0} ⦃d : Double T⦄ (client : Client T I) where
  -- What the client does in a pause leaves the watchpoints alone.
  abbrev pub KeepsWatchpoints : Type 0
  KeepsWatchpoints =
      (msg : StopMessage T) (m : DataManager T I)
      → (run (client msg m) m).watchpoint_list ≡ m.watchpoint_list
