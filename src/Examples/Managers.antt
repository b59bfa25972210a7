-- ===== src/Examples/Managers.antt =====
-- Data managers at work.
use pfpsim.Common.{
  ◌≡◌, refl, ◌≢◌, ◌⊎◌, inl, inr, true, false, List, [], ◌∷◌, ◌++◌, map, String, string_eq, none, ℤ,
  pos, negsuc, Has, any, ◌↔◌,
}
use pfpsim.OrderedMap.{find, assign, insert, erase}
use pfpsim.KeyOrder.{string_order}
use pfpsim.Debugger.Breakpoint.{
  Breakpoint, break_on_packet_id, break_on_module_read, is_equal, add_condition, condition_eq,
  condition_order,
}
use pfpsim.Debugger.Breakpoint.Comparison.{Contained, is_equal_iff_Contained}
use pfpsim.Debugger.DataManager.{
  DataManager, LatencyReadTrigger, init, add_counter, add_ignore_module,
}
use pfpsim.Debugger.DataManager.Traces.{add_counter_trace, add_latency_trace, add_throughput_trace}
use pfpsim.Debugger.DataManager.Packets.{
  update_packet, arm_all, complete_latencies, latency_data, update_throughput,
}
use pfpsim.Debugger.DataManager.Operations.{
  Operation, adds_counter, traces_counter, traces_latency, ignores, adds_breakpoint, apply, run,
}
use pfpsim.Debugger.DataManager.Points.{
  IsIrredundant, init-IsIrredundant, apply-IsIrredundant, run-IsIrredundant,
}
use pfpsim.Debugger.DataManager.FreshIds.{fresh_trace_id}
use pfpsim.Debugger.DataManager.Measurement.{
  Notice, queues, spec_step, spec_run, observe, observe_all, observe-refines,
}
use pfpsim.Debugger.DataManager.Reported.{latency_reported}
use pfpsim.Decimal.{to_string}
use pfpsim.Examples.Times.{int_double}

-- Packets on their way from the parser to the deparser are timed, and a counter is traced.
abbrev setup : List (Operation ℤ String)
setup =
    adds_counter "drops"
    ∷ traces_counter "drops"
    ∷ traces_latency "parser" "deparser"
    ∷ ignores "queue"
    ∷ []

abbrev started : DataManager ℤ String
started = run setup init

abbrev timed : LatencyReadTrigger
timed = record { trace_id = pos 1; write_module_name = "deparser" }

abbrev enters : Notice ℤ String
enters = record {
  id = pos 7;
  debug_info = none;
  module_name = "parser";
  time = pos 10;
  read = true;
}

abbrev passes : Notice ℤ String
passes = record {
  id = pos 7;
  debug_info = none;
  module_name = "queue";
  time = pos 15;
  read = false;
}

abbrev leaves : Notice ℤ String
leaves = record {
  id = pos 7;
  debug_info = none;
  module_name = "deparser";
  time = pos 42;
  read = false;
}

-- The deparser's write reports 32 nanoseconds for trace 1.
latency_run :
    (observe leaves (observe_all (enters ∷ passes ∷ []) started)).1
    ≡ record { id = pos 1; value = pos 32 } ∷ []
unfolding run apply init add_counter add_counter_trace add_latency_trace add_ignore_module find
    assign insert erase any observe observe_all update_packet arm_all complete_latencies
    update_throughput latency_data to_string
latency_run = refl

latency_reported_example :
    Has
      (record { id = pos 1; value = pos 32 })
      (observe leaves (observe_all (enters ∷ passes ∷ []) started)).1
unfolding run apply init add_counter add_counter_trace add_latency_trace add_ignore_module find
    assign insert any
latency_reported_example =
    latency_reported timed enters leaves (passes ∷ []) started (inl refl) refl refl refl refl
      (inr refl, tt)

observe-refines_example :
    let q = spec_run started.latency_read_triggers (enters ∷ []) (queues started) in
    let before = observe_all (enters ∷ []) started in
    (queues (observe leaves before).0 ≡ spec_step started.latency_read_triggers leaves q)
    × ((observe leaves before).1
        ≡ map (latency_data (pos 42)) (q "deparser" (pos 7))
          ++ (update_throughput "deparser" (pos 42) before.throughput_triggers).0)
observe-refines_example = observe-refines (enters ∷ []) leaves started

fresh_trace_id_example :
    ((k : String)
      → ((add_counter_trace k started).1 ≡ negsuc 0)
        ⊎ ((add_counter_trace k started).1 ≡ negsuc 1)
        ⊎ ((add_counter_trace k started).1 ≢ pos 0))
    × ((from to : String) → (add_latency_trace from to started).1 ≢ pos 0)
    × ((k : String) → (add_throughput_trace k started).1 ≢ pos 0)
unfolding run apply init add_counter add_counter_trace add_latency_trace add_ignore_module find
    assign insert any
fresh_trace_id_example = fresh_trace_id setup (pos 0) (inl ("drops", refl))

started-IsIrredundant : IsIrredundant started
started-IsIrredundant = run-IsIrredundant setup init init-IsIrredundant

abbrev on_packet : Breakpoint
on_packet = record {
  conditions = (break_on_packet_id, "7") ∷ [];
  temp = false;
  disabled = false;
  id = pos 0;
}

apply-IsIrredundant_example : IsIrredundant (apply (adds_breakpoint on_packet) started)
apply-IsIrredundant_example =
    apply-IsIrredundant (adds_breakpoint on_packet) started started-IsIrredundant

is_equal_iff_Contained_example :
    (is_equal on_packet (add_condition break_on_module_read "parser" on_packet) ≡ true)
    ↔ Contained on_packet.conditions
        (add_condition break_on_module_read "parser" on_packet).conditions
is_equal_iff_Contained_example =
    is_equal_iff_Contained on_packet (add_condition break_on_module_read "parser" on_packet)
      (tt, tt)
