-- ===== src/Debugger/Server.antt =====
-- pfpsim/core/debugger/DebuggerIPCServer.cpp: what the server does with a request. The library's parts
-- that it reaches through parameters: conversions of texts, the `DebugInfo` of the simulated device, and
-- the control plane's `do_command`.
pub mod Handlers
pub mod Replies
pub mod Asked
pub mod Conditions
pub mod Changes
use pfpsim.Common.{
  ◌>>=◌, ℕ, suc, Bool, true, false, not, ◌&&◌, ◌||◌, Option, none, some, List, [], ◌∷◌, ◌++◌,
  String, map, ◌==◌, string_eq, int_eq, if◌then◌else◌, ℤ, pos, is_negative,
}
use pfpsim.Double.{Double, unset}
use pfpsim.Decimal.{to_string}
use pfpsim.OrderedMap.{Map}
use pfpsim.Debugger.Breakpoint.{
  Condition, break_at_time, break_on_packet_id, condition_eq, Breakpoint, new, add_condition,
}
use pfpsim.Debugger.Watchpoint.{Watchpoint, new as new_watchpoint}
use pfpsim.Debugger.Packet.{PacketLocation, DebuggerPacket}
use pfpsim.Debugger.DataManager.{
  DroppedPacket, DataManager, get_counters, get_counter_value, add_breakpoint, remove_breakpoint,
  enable_breakpoint, disable_breakpoint, add_watchpoint, remove_watchpoint, enable_watchpoint,
  disable_watchpoint, whoami, add_ignore_module, check_ignore_modules, remove_ignore_module,
  set_break_on_packet_drop, get_packet,
}
use pfpsim.Debugger.DataManager.Traces.{add_counter_trace, add_latency_trace, add_throughput_trace}
use pfpsim.Debugger.CpInterface.{TableEntry, TableEntries, get_all_table_entries}

-- `none` where `std::stoi` and `std::stod` throw. The functions of the simulated device and of the control
-- plane are taken to return.
pub record Services (T I : Type 0) : Type 0 where
  pub stoi : String → Option ℤ
  pub stod : String → Option T
  pub field_value : I → String → List ℕ
  pub raw_data : I → List ℕ
  pub parsed_data : I → List (String × List (String × List ℕ))
  pub do_command : String → TableEntries → TableEntries

pub data TraceType : Type 0 where
  latency throughput counter : TraceType

-- The requests, with the fields that their handlers read; optional ones are options.
pub data Request : Type 0 where
  run_request : Option String → Request
  get_counter : String → Request
  get_all_counters : Request
  set_breakpoint : List Condition → List String → String → String → Request
  continue_request : Option String → Request
  get_all_breakpoints : Request
  remove_breakpoint_request : String → Request
  who_am_i : Request
  next : Request
  get_packet_list : Option String → Request
  set_watchpoint : String → String → Request
  get_all_watchpoints : Request
  remove_watchpoint_request : String → Request
  backtrace : Option String → Request
  enable_disable_breakpoint : String → String → Request
  enable_disable_watchpoint : String → String → Request
  ignore_module : String → Bool → Request
  get_all_ignore_modules : Request
  get_simulation_time : Request
  break_on_packet_drop : Bool → Request
  get_dropped_packets : Request
  cp_command : String → Request
  get_table_entries : Request
  get_packet_field : ℤ → String → Request
  get_raw_packet : ℤ → Request
  get_parsed_packet : ℤ → Request
  start_tracing : TraceType → String → String → Request
  any_other : Request

pub data Reply (T : Type 0) : Type 0 where
  succeeded : Reply T
  failed : Reply T
  simulation_end : Reply T
  counter_value_reply : String → ℤ → Reply T
  all_counter_values : Map String ℤ → Reply T
  all_breakpoint_values : List Breakpoint → Reply T
  who_am_i_reply : ℤ → Reply T
  packet_list_values : List (ℤ × String × T) → Reply T
  all_watchpoint_values : List Watchpoint → Reply T
  backtrace_reply : ℤ → List (PacketLocation T) → Reply T
  packet_field_value : List ℕ → Reply T
  raw_packet_value : List ℕ → Reply T
  parsed_packet_value : List (String × List (String × List ℕ)) → Reply T
  all_ignore_modules : List String → Reply T
  simulation_time_value : T → Reply T
  dropped_packets : List DroppedPacket → Reply T
  table_entries : List TableEntry → Reply T
  start_tracing_status : ℤ → Reply T

-- The server with the data manager and the classes' static counters. `control_plane` points to nothing until
-- `registerCP`.
pub record Server (T I : Type 0) : Type 0 where
  pub manager : DataManager T I
  pub next_breakpoint : ℕ
  pub next_watchpoint : ℕ
  pub run_called : Bool
  pub control_plane : Option TableEntries

-- What a handler does: the replies that it sends at once, and whether it then lets the simulation go on
-- and waits for its next stop (`waitForStop`), to send the stop's message as one more reply.
pub record Answer (T I : Type 0) : Type 0 where
  pub server : Server T I
  pub replies : List (Reply T)
  pub waits : Bool

module _ {T I : Type 0} where
  abbrev pub replied : Reply T → Server T I → Option (Answer T I)
  replied r s = some (record { server = s; replies = r ∷ []; waits = false })

  -- `data_manager->...; sendGenericReply()`.
  abbrev pub done : (DataManager T I → DataManager T I) → Server T I → Option (Answer T I)
  done f s = replied succeeded (record s { manager = f s.manager })

  abbrev pub resumed : Server T I → Option (Answer T I)
  resumed s = some (record { server = s; replies = []; waits = true })

-- A stealth breakpoint is made without an identifier of its own.
abbrev pub stop_on : Condition → String → Breakpoint
stop_on c value = record (add_condition c value (new true 0).0) { temp = true }

unfoldable pub register_cp : {T I : Type 0} → TableEntries → Server T I → Server T I
register_cp cp_debug_if s = record s { control_plane = some cp_debug_if }

-- The breakpoint of a request: the conditions in turn, each with the value at its index; one for a time
-- makes it temporary. `none` is an index at which there is no value.
unfoldable pub with_conditions : List Condition → List String → Breakpoint → Option Breakpoint
with_conditions [] values br = some br
with_conditions (c ∷ conditions) [] br = none
with_conditions (c ∷ conditions) (value ∷ values) br =
    let added = add_condition c value br in
    with_conditions conditions values
      (if c == break_at_time then record added { temp = true } else added)

unfoldable pub handle_set_breakpoint :
    {T I : Type 0}
    → List Condition
    → List String
    → String
    → String
    → Server T I
    → Option (Answer T I)
handle_set_breakpoint conditions values temporary disabled s = do
  let made = new false s.next_breakpoint
  br ←
      with_conditions conditions values
        (record made.0 { temp = temporary == "1"; disabled = disabled == "1" })
  replied succeeded (record s { manager = add_breakpoint br s.manager; next_breakpoint = made.1 })
