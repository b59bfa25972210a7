-- ===== src/Debugger/DataManager/Points.antt =====
-- Breakpoints, watchpoints and ignored modules: which entries their lists can hold at once.
use pfpsim.Common.{
  refl, Bool, true, false, List, [], ◌∷◌, String, arith, ◌==◌, string_eq, int_eq, Bool-cases, inl,
  inr, any, update_first, Apart, append-Apart, erase_first-Apart, update_first-Apart,
}
use pfpsim.Double.{Double}
use pfpsim.Debugger.Breakpoint.{Breakpoint, is_equal}
use pfpsim.Debugger.Watchpoint.{Watchpoint}
use pfpsim.Debugger.DataManager.{
  DataManager, init, add_counter, remove_counter, update_counter, add_breakpoint, remove_breakpoint,
  enable_breakpoint, disable_breakpoint, add_watchpoint, remove_watchpoint, enable_watchpoint,
  disable_watchpoint, set_whoami, add_ignore_module, remove_ignore_module, add_dropped_packet,
  set_break_on_packet_drop, remove_packet, set_simulation_time,
}
use pfpsim.Debugger.DataManager.Traces.{add_counter_trace, add_latency_trace, add_throughput_trace}
use pfpsim.Debugger.DataManager.Packets.{update_packet}
use pfpsim.Debugger.DataManager.Operations.{
  Operation, adds_breakpoint, adds_watchpoint, ignores, removes_breakpoint, removes_watchpoint,
  enables_breakpoint, disables_breakpoint, enables_watchpoint, disables_watchpoint, notices_again,
  apply, run,
}

abbrev pub same_counter : Watchpoint → Watchpoint → Bool
same_counter v w = v.counter_name == w.counter_name

abbrev pub same_name : String → String → Bool
same_name s t = t == s

-- No breakpoint's conditions are contained in those of a later one, each watched counter has one
-- watchpoint, and each ignored module is listed once.
pub record IsIrredundant {T I : Type 0} (m : DataManager T I) : Type 0 where
  pub breakpoints_apart : Apart is_equal m.breakpoint_list
  pub watchpoints_apart : Apart same_counter m.watchpoint_list
  pub ignored_apart : Apart same_name m.ignore_module_list

module _ {T I : Type 0} where
  add_breakpoint-IsIrredundant :
      (br : Breakpoint) (m : DataManager T I)
      → IsIrredundant m
      → IsIrredundant (add_breakpoint br m)
  unfolding add_breakpoint
  add_breakpoint-IsIrredundant br m v =
      elim (Bool-cases (any (λ b. is_equal b br) m.breakpoint_list)) [
        | inl old ↦ rw old v
        | inr new ↦ rw new (record {
          breakpoints_apart = append-Apart is_equal m.breakpoint_list br new v.breakpoints_apart;
          watchpoints_apart = v.watchpoints_apart;
          ignored_apart = v.ignored_apart;
        })
      ]

  add_watchpoint-IsIrredundant :
      (wp : Watchpoint) (m : DataManager T I)
      → IsIrredundant m
      → IsIrredundant (add_watchpoint wp m)
  unfolding add_watchpoint
  add_watchpoint-IsIrredundant wp m v =
      elim (Bool-cases (any (λ w. same_counter w wp) m.watchpoint_list)) [
        | inl old ↦ rw old v
        | inr new ↦ rw new (record {
          breakpoints_apart = v.breakpoints_apart;
          watchpoints_apart =
              append-Apart same_counter m.watchpoint_list wp new v.watchpoints_apart;
          ignored_apart = v.ignored_apart;
        })
      ]

  add_ignore_module-IsIrredundant :
      (name : String) (m : DataManager T I)
      → IsIrredundant m
      → IsIrredundant (add_ignore_module name m)
  unfolding add_ignore_module
  add_ignore_module-IsIrredundant name m v =
      elim (Bool-cases (any (λ it. same_name it name) m.ignore_module_list)) [
        | inl old ↦ rw old v
        | inr new ↦ rw new (record {
          breakpoints_apart = v.breakpoints_apart;
          watchpoints_apart = v.watchpoints_apart;
          ignored_apart = append-Apart same_name m.ignore_module_list name new v.ignored_apart;
        })
      ]

  breakpoint_list-IsIrredundant :
      (bs : List Breakpoint) (m : DataManager T I)
      → Apart is_equal bs
      → IsIrredundant m
      → IsIrredundant (record m { breakpoint_list = bs })
  breakpoint_list-IsIrredundant bs m a v = record {
    breakpoints_apart = a;
    watchpoints_apart = v.watchpoints_apart;
    ignored_apart = v.ignored_apart;
  }

  watchpoint_list-IsIrredundant :
      (ws : List Watchpoint) (m : DataManager T I)
      → Apart same_counter ws
      → IsIrredundant m
      → IsIrredundant (record m { watchpoint_list = ws })
  watchpoint_list-IsIrredundant ws m a v = record {
    breakpoints_apart = v.breakpoints_apart;
    watchpoints_apart = a;
    ignored_apart = v.ignored_apart;
  }

-- Switching a breakpoint or a watchpoint leaves what it compares by.
switch-Apart :
    (b : Bool) (q : Breakpoint → Bool) (bs : List Breakpoint)
    → Apart is_equal bs
    → Apart is_equal (update_first q (λ x. record x { disabled = b }) bs)
unfolding is_equal
switch-Apart b q bs a =
    update_first-Apart is_equal q (λ x. record x { disabled = b }) bs (λ x y. refl) (λ x y. refl) a

switch_watch-Apart :
    (b : Bool) (q : Watchpoint → Bool) (ws : List Watchpoint)
    → Apart same_counter ws
    → Apart same_counter (update_first q (λ x. record x { disabled = b }) ws)
switch_watch-Apart b q ws a =
    update_first-Apart same_counter q (λ x. record x { disabled = b }) ws (λ x y. refl)
      (λ x y. refl) a

module _ {T I : Type 0} ⦃d : Double T⦄ where
  -- Every operation keeps the three lists irredundant.
  pub apply-IsIrredundant :
      (o : Operation T I) (m : DataManager T I) → IsIrredundant m → IsIrredundant (apply o m)
  unfolding apply add_counter remove_counter update_counter remove_breakpoint enable_breakpoint
      disable_breakpoint remove_watchpoint enable_watchpoint disable_watchpoint set_whoami
      remove_ignore_module add_dropped_packet set_break_on_packet_drop remove_packet
      set_simulation_time add_counter_trace add_latency_trace add_throughput_trace update_packet
  apply-IsIrredundant (adds_breakpoint br) m v = add_breakpoint-IsIrredundant br m v
  apply-IsIrredundant (adds_watchpoint wp) m v = add_watchpoint-IsIrredundant wp m v
  apply-IsIrredundant (ignores name) m v = add_ignore_module-IsIrredundant name m v
  apply-IsIrredundant (removes_breakpoint id) m v =
      breakpoint_list-IsIrredundant _ m
        (erase_first-Apart is_equal (λ b. b.id == id) m.breakpoint_list v.breakpoints_apart) v
  apply-IsIrredundant (removes_watchpoint id) m v =
      watchpoint_list-IsIrredundant _ m
        (erase_first-Apart same_counter (λ w. w.id == id) m.watchpoint_list v.watchpoints_apart) v
  apply-IsIrredundant (enables_breakpoint id) m v =
      breakpoint_list-IsIrredundant _ m (switch-Apart false _ m.breakpoint_list v.breakpoints_apart)
        v
  apply-IsIrredundant (disables_breakpoint id) m v =
      breakpoint_list-IsIrredundant _ m (switch-Apart true _ m.breakpoint_list v.breakpoints_apart)
        v
  apply-IsIrredundant (enables_watchpoint id) m v =
      watchpoint_list-IsIrredundant _ m
        (switch_watch-Apart false _ m.watchpoint_list v.watchpoints_apart) v
  apply-IsIrredundant (disables_watchpoint id) m v =
      watchpoint_list-IsIrredundant _ m
        (switch_watch-Apart true _ m.watchpoint_list v.watchpoints_apart) v
  apply-IsIrredundant (notices_again name) m v = record {
    breakpoints_apart = v.breakpoints_apart;
    watchpoints_apart = v.watchpoints_apart;
    ignored_apart =
        erase_first-Apart same_name (λ it. it == name) m.ignore_module_list v.ignored_apart;
  }
  apply-IsIrredundant _ m v = ground arith

  pub init-IsIrredundant : IsIrredundant (init {T = T} {I = I})
  unfolding init
  init-IsIrredundant = record { breakpoints_apart = tt; watchpoints_apart = tt; ignored_apart = tt }

  pub run-IsIrredundant :
      (os : List (Operation T I)) (m : DataManager T I) → IsIrredundant m → IsIrredundant (run os m)
  unfolding run
  run-IsIrredundant [] m v = v
  run-IsIrredundant (o ∷ os) m v = run-IsIrredundant os (apply o m) (apply-IsIrredundant o m v)
