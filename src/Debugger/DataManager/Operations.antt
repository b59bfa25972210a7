-- ===== src/Debugger/DataManager/Operations.antt =====
-- The operations of the data manager as one type: the steps that the debugger's threads take on it.
use pfpsim.Common.{Bool, String, Option, List, [], ◌∷◌, ℤ, or_else}
use pfpsim.Double.{Double}
use pfpsim.Debugger.Breakpoint.{Breakpoint}
use pfpsim.Debugger.Watchpoint.{Watchpoint}
use pfpsim.Debugger.DataManager.{
  DataManager, add_counter, remove_counter, update_counter, add_breakpoint, remove_breakpoint,
  enable_breakpoint, disable_breakpoint, add_watchpoint, remove_watchpoint, enable_watchpoint,
  disable_watchpoint, set_whoami, add_ignore_module, remove_ignore_module, add_dropped_packet,
  set_break_on_packet_drop, remove_packet, set_simulation_time,
}
use pfpsim.Debugger.DataManager.Traces.{add_counter_trace, add_latency_trace, add_throughput_trace}
use pfpsim.Debugger.DataManager.Packets.{update_packet}

pub data Operation (T I : Type 0) : Type 0 where
  adds_counter : String → Operation T I
  removes_counter : String → Operation T I
  updates_counter : String → ℤ → Operation T I
  traces_counter : String → Operation T I
  traces_latency : String → String → Operation T I
  traces_throughput : String → Operation T I
  adds_breakpoint : Breakpoint → Operation T I
  removes_breakpoint : ℤ → Operation T I
  enables_breakpoint : ℤ → Operation T I
  disables_breakpoint : ℤ → Operation T I
  updates_packet : ℤ → Option I → String → T → Bool → Operation T I
  removes_packet : ℤ → Operation T I
  adds_watchpoint : Watchpoint → Operation T I
  removes_watchpoint : ℤ → Operation T I
  enables_watchpoint : ℤ → Operation T I
  disables_watchpoint : ℤ → Operation T I
  sets_whoami : ℤ → Operation T I
  ignores : String → Operation T I
  notices_again : String → Operation T I
  drops : ℤ → String → String → Operation T I
  breaks_on_drop : Bool → Operation T I
  sets_time : T → Operation T I

module _ {T I : Type 0} ⦃d : Double T⦄ where
  -- The state after the operation; `updateCounter` leaves it alone where it throws.
  unfoldable pub apply : Operation T I → DataManager T I → DataManager T I
  apply (adds_counter name) m = add_counter name m
  apply (removes_counter name) m = remove_counter name m
  apply (updates_counter name v) m = or_else (update_counter name v m) m
  apply (traces_counter name) m = (add_counter_trace name m).0
  apply (traces_latency from to) m = (add_latency_trace from to m).0
  apply (traces_throughput name) m = (add_throughput_trace name m).0
  apply (adds_breakpoint br) m = add_breakpoint br m
  apply (removes_breakpoint id) m = remove_breakpoint id m
  apply (enables_breakpoint id) m = enable_breakpoint id m
  apply (disables_breakpoint id) m = disable_breakpoint id m
  apply (updates_packet id di name time read) m = (update_packet id di name time read m).0
  apply (removes_packet id) m = remove_packet id m
  apply (adds_watchpoint wp) m = add_watchpoint wp m
  apply (removes_watchpoint id) m = remove_watchpoint id m
  apply (enables_watchpoint id) m = enable_watchpoint id m
  apply (disables_watchpoint id) m = disable_watchpoint id m
  apply (sets_whoami id) m = set_whoami id m
  apply (ignores name) m = add_ignore_module name m
  apply (notices_again name) m = remove_ignore_module name m
  apply (drops id in_module reason) m = add_dropped_packet id in_module reason m
  apply (breaks_on_drop b) m = set_break_on_packet_drop b m
  apply (sets_time time) m = set_simulation_time time m

  unfoldable pub run : List (Operation T I) → DataManager T I → DataManager T I
  run [] m = m
  run (o ∷ os) m = run os (apply o m)
