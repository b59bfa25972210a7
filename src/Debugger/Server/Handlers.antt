-- ===== src/Debugger/Server/Handlers.antt =====
-- DebuggerIPCServer.cpp: the handlers, and `parseRequest`, which chooses one.
use pfpsim.Common.{
  ◌>>=◌, Bool, true, false, not, ◌&&◌, ◌||◌, Option, none, some, List, [], ◌∷◌, String, ◌==◌,
  string_eq, int_eq, if◌then◌else◌, ℤ, is_negative,
}
use pfpsim.Double.{Double, unset}
use pfpsim.Decimal.{to_string}
use pfpsim.OrderedMap.{Map}
use pfpsim.Debugger.Breakpoint.{break_at_time, break_on_packet_id}
use pfpsim.Debugger.Watchpoint.{new as new_watchpoint}
use pfpsim.Debugger.Packet.{DebuggerPacket}
use pfpsim.Debugger.DataManager.{
  DataManager, get_counters, get_counter_value, add_breakpoint, remove_breakpoint,
  enable_breakpoint, disable_breakpoint, add_watchpoint, remove_watchpoint, enable_watchpoint,
  disable_watchpoint, whoami, add_ignore_module, check_ignore_modules, remove_ignore_module,
  set_break_on_packet_drop, get_packet,
}
use pfpsim.Debugger.DataManager.Traces.{add_counter_trace, add_latency_trace, add_throughput_trace}
use pfpsim.Debugger.CpInterface.{get_all_table_entries}
use pfpsim.Debugger.Server.{
  Services, TraceType, latency, throughput, counter, Request, run_request, get_counter,
  get_all_counters, set_breakpoint, continue_request, get_all_breakpoints,
  remove_breakpoint_request, who_am_i, next, get_packet_list, set_watchpoint, get_all_watchpoints,
  remove_watchpoint_request, backtrace, enable_disable_breakpoint, enable_disable_watchpoint,
  ignore_module, get_all_ignore_modules, get_simulation_time, break_on_packet_drop,
  get_dropped_packets, cp_command, get_table_entries, get_packet_field, get_raw_packet,
  get_parsed_packet, start_tracing, any_other, Reply, succeeded, failed, simulation_end,
  counter_value_reply, all_counter_values, all_breakpoint_values, who_am_i_reply,
  packet_list_values, all_watchpoint_values, backtrace_reply, packet_field_value, raw_packet_value,
  parsed_packet_value, all_ignore_modules, simulation_time_value, dropped_packets, table_entries,
  start_tracing_status, Server, Answer, replied, done, resumed, stop_on, handle_set_breakpoint,
}

-- The packets of a module (of all where it is empty) that is not ignored.
unfoldable pub packets_in :
    {T I : Type 0} → String → DataManager T I → Map ℤ (DebuggerPacket T I) → List (ℤ × String × T)
packets_in name m [] = []
packets_in name m ((id, pk) ∷ rest) =
    let others = packets_in name m rest in
    if (name == "" || pk.current_location == name)
      && not (check_ignore_modules pk.current_location m)
    then (pk.packet_id, pk.current_location, pk.last_notify_time) ∷ others
    else others

module _ {T I : Type 0} where
  unfoldable pub handle_set_watchpoint : String → String → Server T I → Option (Answer T I)
  handle_set_watchpoint counter_name disabled s =
      let made = new_watchpoint counter_name (disabled == "1") s.next_watchpoint in
      replied succeeded
        (record s { manager = add_watchpoint made.0 s.manager; next_watchpoint = made.1 })

  unfoldable pub enable_disable :
      (DataManager T I → DataManager T I)
      → (DataManager T I → DataManager T I)
      → String
      → Server T I
      → Option (Answer T I)
  enable_disable enables disables enable s = done (if enable == "0" then disables else enables) s

  unfoldable pub handle_ignore_module : String → Bool → Server T I → Option (Answer T I)
  handle_ignore_module name del s =
      done (if del then remove_ignore_module name else add_ignore_module name) s

  -- A trace that cannot be made fails. `parseRequest` has no `break` after this handler, so the
  -- default case sends one more failure.
  abbrev trace_started : DataManager T I × ℤ → Server T I → Option (Answer T I)
  trace_started made s = some (record {
    server = record s { manager = made.0 };
    replies = (if is_negative made.1 then failed else start_tracing_status made.1) ∷ failed ∷ [];
    waits = false;
  })

  -- The reply about a packet's `DebugInfo`, and the failure that is sent in any case.
  abbrev pub info_of : Option (DebuggerPacket T I) → Option I
  info_of none = none
  info_of (some pk) = pk.debug_info

  abbrev pub about : (I → Reply T) → Option I → List (Reply T)
  about f none = failed ∷ []
  about f (some di) = f di ∷ failed ∷ []

  unfoldable pub handle_packet_info : (I → Reply T) → ℤ → Server T I → Option (Answer T I)
  handle_packet_info f id s =
      some (record {
        server = s;
        replies = about f (info_of (get_packet id s.manager));
        waits = false;
      })

  abbrev traced : ℤ → Option (DebuggerPacket T I) → Reply T
  traced id none = failed
  traced id (some pk) = backtrace_reply id pk.trace

module _ {T I : Type 0} ⦃d : Double T⦄ where
  -- The stealth breakpoint of a run for some time; -1 stands for no time.
  unfoldable pub until : T → DataManager T I → DataManager T I
  until time_ns m =
      if d.same time_ns unset
      then m
      else add_breakpoint (stop_on break_at_time (d.print (d.plus m.simulation_time time_ns))) m

module _ {T I : Type 0} ⦃d : Double T⦄ (services : Services T I) where
  -- `handleRun` and `handleContinue`.
  unfoldable pub handle_continue : Option String → Server T I → Option (Answer T I)
  handle_continue none s = resumed s
  handle_continue (some text) s = do
    time_ns ← services.stod text
    resumed (record s { manager = until time_ns s.manager })

  unfoldable pub handle_next : Server T I → Option (Answer T I)
  handle_next s = resumed (record s {
    manager = add_breakpoint (stop_on break_on_packet_id (to_string (whoami s.manager))) s.manager;
  })

  -- After a text that is no number, the handler reads an identifier that was never set.
  unfoldable pub handle_backtrace : Option String → Server T I → Option (Answer T I)
  handle_backtrace none s =
      let id = whoami s.manager in replied (traced id (get_packet id s.manager)) s
  handle_backtrace (some text) s = do
    id ← services.stoi text
    replied (traced id (get_packet id s.manager)) s

  unfoldable pub handle_start_tracing :
      TraceType → String → String → Server T I → Option (Answer T I)
  handle_start_tracing counter name end_name s = trace_started (add_counter_trace name s.manager) s
  handle_start_tracing latency name end_name s =
      trace_started (add_latency_trace name end_name s.manager) s
  handle_start_tracing throughput name end_name s =
      trace_started (add_throughput_trace name s.manager) s

  unfoldable pub parse_request : Request → Server T I → Option (Answer T I)
  parse_request (run_request time) s =
      if s.run_called
      then replied simulation_end s
      else handle_continue time (record s { run_called = true })
  parse_request (get_counter name) s =
      replied (counter_value_reply name (get_counter_value name s.manager)) s
  parse_request get_all_counters s = replied (all_counter_values (get_counters s.manager)) s
  parse_request (set_breakpoint conditions values temporary disabled) s =
      handle_set_breakpoint conditions values temporary disabled s
  parse_request (continue_request time) s = handle_continue time s
  parse_request get_all_breakpoints s = replied (all_breakpoint_values s.manager.breakpoint_list) s
  parse_request (remove_breakpoint_request id) s = do
    id ← services.stoi id
    done (remove_breakpoint id) s
  parse_request who_am_i s = replied (who_am_i_reply (whoami s.manager)) s
  parse_request next s = handle_next s
  parse_request (get_packet_list none) s =
      replied (packet_list_values (packets_in "" s.manager s.manager.packet_list)) s
  parse_request (get_packet_list (some name)) s =
      replied (packet_list_values (packets_in name s.manager s.manager.packet_list)) s
  parse_request (set_watchpoint counter_name disabled) s =
      handle_set_watchpoint counter_name disabled s
  parse_request get_all_watchpoints s = replied (all_watchpoint_values s.manager.watchpoint_list) s
  parse_request (remove_watchpoint_request id) s = do
    id ← services.stoi id
    done (remove_watchpoint id) s
  parse_request (backtrace id) s = handle_backtrace id s
  parse_request (enable_disable_breakpoint id enable) s = do
    id ← services.stoi id
    enable_disable (enable_breakpoint id) (disable_breakpoint id) enable s
  parse_request (enable_disable_watchpoint id enable) s = do
    id ← services.stoi id
    enable_disable (enable_watchpoint id) (disable_watchpoint id) enable s
  parse_request (ignore_module name del) s = handle_ignore_module name del s
  parse_request get_all_ignore_modules s =
      replied (all_ignore_modules s.manager.ignore_module_list) s
  parse_request get_simulation_time s = replied (simulation_time_value s.manager.simulation_time) s
  parse_request (break_on_packet_drop on) s = done (set_break_on_packet_drop on) s
  parse_request get_dropped_packets s = replied (dropped_packets s.manager.dropped_packet_list) s
  parse_request (cp_command command) s = do
    entries ← s.control_plane
    replied succeeded (record s { control_plane = some (services.do_command command entries) })
  parse_request get_table_entries s = do
    entries ← s.control_plane
    replied (table_entries (get_all_table_entries entries)) s
  parse_request (get_packet_field id field_name) s =
      handle_packet_info (λ di. packet_field_value (services.field_value di field_name)) id s
  parse_request (get_raw_packet id) s =
      handle_packet_info (λ di. raw_packet_value (services.raw_data di)) id s
  parse_request (get_parsed_packet id) s =
      handle_packet_info (λ di. parsed_packet_value (services.parsed_data di)) id s
  parse_request (start_tracing type name end_name) s = handle_start_tracing type name end_name s
  parse_request any_other s = replied failed s
