-- ===== src/Debugger/DataManager/Traces.antt =====
-- DebugDataManager.cpp: making traces, `addCounterTrace` to `getCounterTraceId`.
use pfpsim.Common.{
  suc, [], ◌∷◌, ◌++◌, String, string_eq, if◌then◌else◌, ℤ, pos, negsuc, minus_one, or_else, is_some,
}
use pfpsim.Double.{Double, unset}
use pfpsim.KeyOrder.{string_order}
use pfpsim.OrderedMap.{find, assign}
use pfpsim.Debugger.DataManager.{DataManager}

module _ {T I : Type 0} where
  -- The new trace's identifier, or -1 if there is no such counter, or -2 if it is traced already.
  unfoldable pub add_counter_trace : String → DataManager T I → DataManager T I × ℤ
  add_counter_trace name m =
      if is_some (find name m.counters)
      then (if is_some (find name m.counter_traces) then (m, negsuc 1) else (
        record m {
          trace_id = suc m.trace_id;
          counter_traces = assign name (pos m.trace_id) m.counter_traces;
        },
        pos m.trace_id,
      ))
      else (m, negsuc 0)

  -- `latency_read_triggers[from].push_back({id, to})`.
  unfoldable pub add_latency_trace : String → String → DataManager T I → DataManager T I × ℤ
  add_latency_trace from_module_name to_module_name m = (
    record m {
      trace_id = suc m.trace_id;
      latency_read_triggers =
          assign from_module_name
            (or_else (find from_module_name m.latency_read_triggers) []
              ++ record { trace_id = pos m.trace_id; write_module_name = to_module_name } ∷ [])
            m.latency_read_triggers;
    },
    pos m.trace_id,
  )

  unfoldable pub get_counter_trace_id : String → DataManager T I → ℤ
  get_counter_trace_id name m = or_else (find name m.counter_traces) minus_one

module _ {T I : Type 0} ⦃d : Double T⦄ where
  unfoldable pub add_throughput_trace : String → DataManager T I → DataManager T I × ℤ
  add_throughput_trace module_name m = (
    record m {
      trace_id = suc m.trace_id;
      throughput_triggers =
          assign module_name (record { trace_id = pos m.trace_id; last_time = unset })
            m.throughput_triggers;
    },
    pos m.trace_id,
  )
