-- ===== src/Debugger/Observer/Ending.antt =====
-- DebugObserver.cpp: how the debugger is switched on, and the end of the simulation, where the observer
-- is destroyed.
use pfpsim.Common.{
  ◌>>=◌, ◌≡◌, refl, ℕ, zero, suc, Bool, true, false, Option, none, some, List, [], ◌++◌,
  if◌then◌else◌,
}
use pfpsim.Double.{Double}
use pfpsim.Debugger.DataManager.{DataManager}
use pfpsim.Debugger.Message.{simulation_end}
use pfpsim.Debugger.Observer.{Client, Outgoing, pause}

-- The observer: its data manager, and its flag `enable`, which is false at first.
pub record DebugObserver (T I : Type 0) : Type 0 where
  pub data_manager : DataManager T I
  pub enable : Bool

unfoldable pub enable_debugger : {T I : Type 0} → DebugObserver T I → DebugObserver T I
enable_debugger o = record { data_manager = o.data_manager; enable = true }

module _ {T I : Type 0} ⦃d : Double T⦄ (client : Client T I) where
  -- The loop of the destructor, for at most `rounds` tests of its condition: `none` is that it goes on.
  unfoldable pub destroy : ℕ → DebugObserver T I → Option (List (Outgoing T))
  destroy zero o = none
  destroy (suc rounds) o = do
    let here = pause client simulation_end o.data_manager
    let rest = destroy rounds (record { data_manager = here.0; enable = o.enable })
    if o.enable then (do later ← rest; some (here.1 ++ later)) else some []

  -- An observer that was never enabled is destroyed without a word, and one that was enabled announces
  -- the end of the simulation again after each pause and is never destroyed, whatever operations the
  -- client has done in the pauses.
  pub destroy_cases :
      (rounds : ℕ) (m : DataManager T I)
      → (destroy (suc rounds) (record { data_manager = m; enable = false }) ≡ some [])
        × (destroy rounds (enable_debugger (record { data_manager = m; enable = false })) ≡ none)
  unfolding destroy enable_debugger
  destroy_cases zero m = (refl, refl)
  destroy_cases (suc rounds) m =
      (refl, rw ((destroy_cases rounds (pause client simulation_end m).0).1) refl)
