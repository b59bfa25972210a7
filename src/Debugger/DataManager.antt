-- ===== src/Debugger/DataManager.antt =====
-- pfpsim/core/debugger/DebugDataManager.cpp and DebugDataManager.h: the state that the debugger
-- keeps, and the operations on counters, breakpoints, watchpoints, ignored modules and drops. Each
-- takes the manager's mutex for its whole body, so it is one step.
pub mod Traces
pub mod Packets
pub mod Counters
pub mod Operations
pub mod Reached
pub mod Points
pub mod Ignored
pub mod Latency
pub mod Measurement
pub mod Reported
pub mod TraceIds
pub mod FreshIds
use pfpsim.Common.{
  ℕ, suc, ◌≡◌, Bool, true, false, Option, none, some, List, [], ◌∷◌, ◌++◌, String, Equality, ◌==◌,
  string_eq, int_eq, if◌then◌else◌, ℤ, pos, negsuc, minus_one, erase_first, update_first, any,
  get_elem?, length, or_else, is_some,
}
use pfpsim.Double.{Double}
use pfpsim.KeyOrder.{string_order, int_order}
use pfpsim.OrderedMap.{Map, find, insert, assign, erase}
use pfpsim.Debugger.Breakpoint.{Breakpoint, is_equal}
use pfpsim.Debugger.Watchpoint.{Watchpoint}
use pfpsim.Debugger.Packet.{DebuggerPacket}

pub record LatencyReadTrigger : Type 0 where
  pub trace_id : ℤ
  pub write_module_name : String

pub record LatencyWriteTrigger (T : Type 0) : Type 0 where
  pub trace_id : ℤ
  pub read_time : T

pub record ThroughputTrigger (T : Type 0) : Type 0 where
  pub trace_id : ℤ
  pub last_time : T

pub record DroppedPacket : Type 0 where
  pub packet_id : ℤ
  pub in_module : String
  pub reason : String

-- `T` is `double`, `I` is `DebugInfo`. `trace_id` counts the traces made, which stay below 2^31.
pub record DataManager (T I : Type 0) : Type 0 where
  pub counters : Map String ℤ
  pub trace_id : ℕ
  pub counter_traces : Map String ℤ
  pub latency_read_triggers : Map String (List LatencyReadTrigger)
  pub latency_write_triggers : Map String (Map ℤ (List (LatencyWriteTrigger T)))
  pub throughput_triggers : Map String (ThroughputTrigger T)
  pub packet_list : Map ℤ (DebuggerPacket T I)
  pub breakpoint_list : List Breakpoint
  pub simulation_time : T
  pub current_packet_id : ℤ
  pub watchpoint_list : List Watchpoint
  pub next_watchpoint_id : ℕ
  pub ignore_module_list : List String
  pub dropped_packet_list : List DroppedPacket
  pub break_packet_dropped : Bool

module _ {T I : Type 0} ⦃d : Double T⦄ where
  unfoldable pub init : DataManager T I
  init = record {
    counters = [];
    trace_id = 0;
    counter_traces = [];
    latency_read_triggers = [];
    latency_write_triggers = [];
    throughput_triggers = [];
    packet_list = [];
    breakpoint_list = [];
    simulation_time = d.of_int (pos 0);
    current_packet_id = minus_one;
    watchpoint_list = [];
    next_watchpoint_id = 0;
    ignore_module_list = [];
    dropped_packet_list = [];
    break_packet_dropped = false;
  }

module _ {T I : Type 0} where
  unfoldable pub add_counter : String → DataManager T I → DataManager T I
  add_counter name m = record m { counters = insert name (pos 0) m.counters }

  unfoldable pub remove_counter : String → DataManager T I → DataManager T I
  remove_counter name m = record m { counters = erase name m.counters }

  -- `none` is the exception "COUNTER DOES NOT EXIST".
  unfoldable pub update_counter : String → ℤ → DataManager T I → Option (DataManager T I)
  update_counter name val m =
      if is_some (find name m.counters)
      then some (record m { counters = assign name val m.counters })
      else none

  unfoldable pub get_counter_value : String → DataManager T I → ℤ
  get_counter_value name m = or_else (find name m.counters) minus_one

  unfoldable pub get_counters : DataManager T I → Map String ℤ
  get_counters m = m.counters

  unfoldable pub add_breakpoint : Breakpoint → DataManager T I → DataManager T I
  add_breakpoint br m =
      if any (λ bkpt. is_equal bkpt br) m.breakpoint_list
      then m
      else record m { breakpoint_list = m.breakpoint_list ++ br ∷ [] }

  unfoldable pub remove_breakpoint : ℤ → DataManager T I → DataManager T I
  remove_breakpoint identifier m = record m {
    breakpoint_list = erase_first (λ bkpt. bkpt.id == identifier) m.breakpoint_list;
  }

  unfoldable pub enable_breakpoint : ℤ → DataManager T I → DataManager T I
  enable_breakpoint id m = record m {
    breakpoint_list =
        update_first (λ bkpt. bkpt.id == id) (λ bkpt. record bkpt { disabled = false })
          m.breakpoint_list;
  }

  unfoldable pub disable_breakpoint : ℤ → DataManager T I → DataManager T I
  disable_breakpoint id m = record m {
    breakpoint_list =
        update_first (λ bkpt. bkpt.id == id) (λ bkpt. record bkpt { disabled = true })
          m.breakpoint_list;
  }

  unfoldable pub add_watchpoint : Watchpoint → DataManager T I → DataManager T I
  add_watchpoint wp m =
      if any (λ it. it.counter_name == wp.counter_name) m.watchpoint_list
      then m
      else record m { watchpoint_list = m.watchpoint_list ++ wp ∷ [] }

  unfoldable pub remove_watchpoint : ℤ → DataManager T I → DataManager T I
  remove_watchpoint id m = record m {
    watchpoint_list = erase_first (λ it. it.id == id) m.watchpoint_list;
  }

  unfoldable pub enable_watchpoint : ℤ → DataManager T I → DataManager T I
  enable_watchpoint id m = record m {
    watchpoint_list =
        update_first (λ it. it.id == id) (λ it. record it { disabled = false }) m.watchpoint_list;
  }

  unfoldable pub disable_watchpoint : ℤ → DataManager T I → DataManager T I
  disable_watchpoint id m = record m {
    watchpoint_list =
        update_first (λ it. it.id == id) (λ it. record it { disabled = true }) m.watchpoint_list;
  }

  unfoldable pub whoami : DataManager T I → ℤ
  whoami m = m.current_packet_id

  unfoldable pub set_whoami : ℤ → DataManager T I → DataManager T I
  set_whoami id m = record m { current_packet_id = id }

  unfoldable pub add_ignore_module : String → DataManager T I → DataManager T I
  add_ignore_module mod_name m =
      if any (λ it. mod_name == it) m.ignore_module_list
      then m
      else record m { ignore_module_list = m.ignore_module_list ++ mod_name ∷ [] }

  unfoldable pub check_ignore_modules : String → DataManager T I → Bool
  check_ignore_modules mod_name m = any (λ it. it == mod_name) m.ignore_module_list

  unfoldable pub remove_ignore_module : String → DataManager T I → DataManager T I
  remove_ignore_module mod_name m = record m {
    ignore_module_list = erase_first (λ it. it == mod_name) m.ignore_module_list;
  }

  unfoldable pub add_dropped_packet : ℤ → String → String → DataManager T I → DataManager T I
  add_dropped_packet id in_module reason m = record m {
    dropped_packet_list =
        m.dropped_packet_list
        ++ record { packet_id = id; in_module = in_module; reason = reason } ∷ [];
  }

  unfoldable pub set_break_on_packet_drop : Bool → DataManager T I → DataManager T I
  set_break_on_packet_drop b m = record m { break_packet_dropped = b }

  unfoldable pub remove_packet : ℤ → DataManager T I → DataManager T I
  remove_packet id m = record m { packet_list = erase id m.packet_list }

  -- `none` is the null pointer.
  unfoldable pub get_packet : ℤ → DataManager T I → Option (DebuggerPacket T I)
  get_packet id m = find id m.packet_list

  unfoldable pub set_simulation_time : T → DataManager T I → DataManager T I
  set_simulation_time time_ns m = record m { simulation_time = time_ns }
