-- ===== src/Debugger/Observer/Simulation.antt =====
-- DebugObserver.cpp: what holds of every sequence of notices.
use pfpsim.Common.{◌≡◌, ◌⊎◌, true, false, some, List, Has}
use pfpsim.Double.{Double, IsIeee}
use pfpsim.Debugger.DataManager.{DataManager}
use pfpsim.Debugger.Observer.{Client, Notification}
use pfpsim.Debugger.Observer.Time.{observed}

module _ {T I : Type 0} ⦃d : Double T⦄ (client : Client T I) where
  -- `t'` is the same time or a later one.
  abbrev pub Advances : T → T → Type 0
  Advances t t' = (t' ≡ t) ⊎ (d.less t t' ≡ true)

  module _ (ieee : IsIeee d) where
    abbrev pub IsCurrent : List (Notification T I) → T → T → Type 0
    IsCurrent es before after =
        Advances before after
        × ((e : Notification T I) (t : T) → Has e es → observed e ≡ some t → d.less after t ≡ false)
