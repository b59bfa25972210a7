-- ===== src/Debugger/DataManager/Packets.antt =====
-- DebugDataManager.cpp: `updatePacket`, which records a packet's reads and writes and reports the
-- latencies and rates that they complete.
use pfpsim.Common.{
  Bool, Option, none, some, List, [], ◌∷◌, ◌++◌, String, string_eq, int_eq, if◌then◌else◌, ℤ, pos,
  or_else, map,
}
use pfpsim.Double.{Double, at_least}
use pfpsim.KeyOrder.{string_order, int_order}
use pfpsim.OrderedMap.{Map, find, assign, erase}
use pfpsim.Debugger.Packet.{
  DebuggerPacket, new, set_debug_info, set_time, set_current_location, update_trace_read_time,
  update_trace_write_time,
}
use pfpsim.Debugger.DataManager.{
  LatencyReadTrigger, LatencyWriteTrigger, ThroughputTrigger, DataManager,
}

pub record TraceData (T : Type 0) : Type 0 where
  pub id : ℤ
  pub value : T

-- `latency_write_triggers`, by module and packet.
abbrev pub WriteTriggers : Type 0 → Type 0
WriteTriggers T = Map String (Map ℤ (List (LatencyWriteTrigger T)))

-- `m[key]`, where a missing values_at is made empty.
abbrev pub values_at {κ} : {V : Type κ} → String → Map String (List V) → List V
values_at key m = or_else (find key m) []

module _ {T : Type 0} where
  abbrev pub triggers_of : ℤ → Map ℤ (List (LatencyWriteTrigger T)) → List (LatencyWriteTrigger T)
  triggers_of id m = or_else (find id m) []

  -- `latency_write_triggers[write_module_name][id].push_back({trace_id, time_})`.
  unfoldable pub arm : LatencyReadTrigger → ℤ → T → WriteTriggers T → WriteTriggers T
  arm trigger id time ws =
      let by_packet = values_at trigger.write_module_name ws in
      assign trigger.write_module_name
        (assign id
          (triggers_of id by_packet
            ++ record { trace_id = trigger.trace_id; read_time = time } ∷ [])
          by_packet)
        ws

  -- The loop over the latency traces that a read triggers.
  unfoldable pub arm_all : List LatencyReadTrigger → ℤ → T → WriteTriggers T → WriteTriggers T
  unfolding arm
  arm_all [] id time ws = ws
  arm_all (trigger ∷ rest) id time ws = arm_all rest id time (arm trigger id time ws)

module _ {T : Type 0} ⦃d : Double T⦄ where
  unfoldable pub latency_data : T → LatencyWriteTrigger T → TraceData T
  latency_data time trigger = record {
    id = trigger.trace_id;
    value = d.minus time trigger.read_time;
  }

  -- The latency updates of a write, and the triggers without those of the packet.
  complete_packet :
      String
      → ℤ
      → T
      → WriteTriggers T
      → Map ℤ (List (LatencyWriteTrigger T))
      → Option (List (LatencyWriteTrigger T))
      → List (TraceData T) × WriteTriggers T
  unfolding latency_data
  complete_packet module_name id time ws by_packet none = ([], ws)
  complete_packet module_name id time ws by_packet (some triggers) =
      (map (latency_data time) triggers, assign module_name (erase id by_packet) ws)

  complete_module :
      String
      → ℤ
      → T
      → WriteTriggers T
      → Option (Map ℤ (List (LatencyWriteTrigger T)))
      → List (TraceData T) × WriteTriggers T
  unfolding complete_packet
  complete_module module_name id time ws none = ([], ws)
  complete_module module_name id time ws (some by_packet) =
      complete_packet module_name id time ws by_packet (find id by_packet)

  unfoldable pub complete_latencies :
      String → ℤ → T → WriteTriggers T → List (TraceData T) × WriteTriggers T
  unfolding complete_module
  complete_latencies module_name id time ws =
      complete_module module_name id time ws (find module_name ws)

  -- Packets per second, from the time since the module's last write in nanoseconds.
  unfoldable pub rate : T → T → T
  rate last_time time = d.divide (d.of_int (pos 1000000000)) (d.minus time last_time)

  throughput_of :
      String
      → T
      → Map String (ThroughputTrigger T)
      → Option (ThroughputTrigger T)
      → List (TraceData T) × Map String (ThroughputTrigger T)
  unfolding rate
  throughput_of module_name time ts none = ([], ts)
  throughput_of module_name time ts (some trigger) = (
    if at_least trigger.last_time (d.of_int (pos 0))
        then record { id = trigger.trace_id; value = rate trigger.last_time time } ∷ []
        else [],
    assign module_name (record trigger { last_time = time }) ts,
  )

  unfoldable pub update_throughput :
      String
      → T
      → Map String (ThroughputTrigger T)
      → List (TraceData T) × Map String (ThroughputTrigger T)
  unfolding throughput_of
  update_throughput module_name time ts = throughput_of module_name time ts (find module_name ts)

module _ {T I : Type 0} ⦃d : Double T⦄ where
  -- The packet's record, made at its first notice, with the debug information that came.
  noticed : ℤ → Option I → String → T → DataManager T I → DebuggerPacket T I
  noticed id di module_name time m =
      set_debug_info di (or_else (find id m.packet_list) (new id module_name time))

  unfoldable pub packet_read :
      ℤ → Option I → String → T → DataManager T I → DataManager T I × List (TraceData T)
  unfolding noticed
  packet_read id di module_name time m = (
    record m {
      packet_list =
          assign id
            (update_trace_read_time module_name time
              (set_current_location module_name (set_time time (noticed id di module_name time m))))
            m.packet_list;
      latency_write_triggers =
          arm_all (values_at module_name m.latency_read_triggers) id time m.latency_write_triggers;
    },
    [],
  )

  unfoldable pub packet_written :
      ℤ → Option I → String → T → DataManager T I → DataManager T I × List (TraceData T)
  unfolding noticed
  packet_written id di module_name time m =
      let latencies = complete_latencies module_name id time m.latency_write_triggers in
      let rates = update_throughput module_name time m.throughput_triggers in
      (
        record m {
          packet_list =
              assign id
                (update_trace_write_time module_name time (noticed id di module_name time m))
                m.packet_list;
          latency_write_triggers = latencies.1;
          throughput_triggers = rates.1;
        },
        latencies.0 ++ rates.0,
      )

  unfoldable pub update_packet :
      ℤ → Option I → String → T → Bool → DataManager T I → DataManager T I × List (TraceData T)
  unfolding packet_read packet_written
  update_packet id di module_name time read m =
      if read then packet_read id di module_name time m else packet_written id di module_name time m
