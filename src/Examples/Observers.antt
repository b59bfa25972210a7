-- ===== src/Examples/Observers.antt =====
-- A simulation that is observed.
use pfpsim.Common.{false, List, [], ◌∷◌, String, ℤ, pos, negsuc, string_eq, int_eq}
use pfpsim.KeyOrder.{string_order}
use pfpsim.Debugger.Watchpoint.{Watchpoint}
use pfpsim.Debugger.DataManager.{DataManager}
use pfpsim.Debugger.Observer.{Client, Notification, counter_is_added, counter_is_updated}
use pfpsim.Examples.Times.{int_double}

-- A client that only lets the simulation go on.
abbrev patient : Client ℤ String
patient msg m = []

abbrev notices : List (Notification ℤ String)
notices = counter_is_added "drops" (pos 3) ∷ counter_is_updated "drops" 5 (pos 7) ∷ []

abbrev watch : Watchpoint
watch = record { disabled = false; id = pos 0; counter_name = "drops" }

abbrev finished : DataManager ℤ String
finished = record {
  counters = ("drops", pos 5) ∷ [];
  trace_id = 0;
  counter_traces = [];
  latency_read_triggers = [];
  latency_write_triggers = [];
  throughput_triggers = [];
  packet_list = [];
  breakpoint_list = [];
  simulation_time = pos 7;
  current_packet_id = negsuc 0;
  watchpoint_list = [];
  next_watchpoint_id = 0;
  ignore_module_list = [];
  dropped_packet_list = [];
  break_packet_dropped = false;
}

abbrev watched : DataManager ℤ String
watched = record finished { watchpoint_list = watch ∷ [] }
