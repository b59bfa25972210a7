-- ===== src/Debugger/Observer.antt =====
-- pfpsim/core/debugger/DebugObserver.cpp: what the simulation's notices do to the debugger's state,
-- which traces they update, and where they stop the simulation.
pub mod Course
pub mod Ending
pub mod Time
pub mod Simulation
pub mod Watching
use pfpsim.Common.{
  ◌>>=◌, ℕ, zero, suc, Bool, true, false, not, ◌&&◌, Option, none, some, List, [], ◌∷◌, ◌++◌,
  String, map, ◌==◌, string_eq, nat_eq, int_eq, if◌then◌else◌, ℤ, pos, minus_one, is_negative,
  to_int32, length, get_elem?,
}
use pfpsim.Double.{Double}
use pfpsim.Debugger.Watchpoint.{Watchpoint}
use pfpsim.Debugger.DataManager.{
  DataManager, add_counter, remove_counter, update_counter, get_counter_value, check_ignore_modules,
  add_dropped_packet, set_simulation_time,
}
use pfpsim.Debugger.DataManager.Traces.{get_counter_trace_id}
use pfpsim.Debugger.DataManager.Packets.{TraceData, update_packet}
use pfpsim.Debugger.DataManager.Operations.{Operation, run}
use pfpsim.Debugger.Message.{StopMessage, watchpoint_hit, packet_dropped}
use pfpsim.Debugger.BreakpointHit.{check_breakpoint_hit}

-- A `TrType` as the observer sees it.
pub record Data (I : Type 0) : Type 0 where
  pub id : ℕ
  pub debuggable : Bool
  pub debug_info : Option I

-- What a notice sends out: a trace update (`updateTrace`: identifier, timestamp, value), or a stop
-- with its message, in which the simulation pauses until the debugger lets it go on.
pub data Outgoing (T : Type 0) : Type 0 where
  trace : ℤ → T → T → Outgoing T
  stop : StopMessage T → Outgoing T

-- The operations that the debugger's client has the server do during a pause.
abbrev pub Client : Type 0 → Type 0 → Type 0
Client T I = StopMessage T → DataManager T I → List (Operation T I)

-- `none` is the end of the run by an exception or by undefined behaviour.
abbrev pub Outcome : Type 0 → Type 0 → Type 0
Outcome T I = Option (DataManager T I × List (Outgoing T))

module _ {T I : Type 0} ⦃d : Double T⦄ where
  unfoldable pub update_simulation_time : T → DataManager T I → DataManager T I
  update_simulation_time sim_time m =
      if d.less m.simulation_time sim_time then set_simulation_time sim_time m else m

  -- `ipc_server->updateTrace(t.id, t.value)`; the timestamp is the manager's simulation time.
  abbrev pub update_trace : DataManager T I → TraceData T → Outgoing T
  update_trace m t = trace t.id m.simulation_time t.value

  unfoldable pub counter_added : String → T → DataManager T I → Outcome T I
  counter_added counter_name time m =
      some (update_simulation_time time (add_counter counter_name m), [])

  unfoldable pub counter_removed : String → T → DataManager T I → Outcome T I
  counter_removed counter_name time m =
      some (update_simulation_time time (remove_counter counter_name m), [])

  -- The value before, where -1 stands for a counter that is not there (or has this value).
  unfoldable pub old_value : String → DataManager T I → ℤ
  old_value counter_name m =
      let v = get_counter_value counter_name m in if v == minus_one then pos 0 else v

  unfoldable pub counter_trace : String → ℕ → DataManager T I → List (Outgoing T)
  counter_trace counter_name new_value m =
      let trace_id = get_counter_trace_id counter_name m in
      if is_negative trace_id
      then []
      else update_trace m (record { id = trace_id; value = d.of_int (pos new_value) }) ∷ []

  -- `thread_begin`, `thread_end`, `thread_idle`, `core_busy` and `core_idle`.
  unfoldable pub time_noticed : T → DataManager T I → Outcome T I
  time_noticed time m = some (update_simulation_time time m, [])

module _ {T I : Type 0} ⦃d : Double T⦄ (client : Client T I) where
  -- `setReplyMessage`, `notifyServer` and `pause`.
  unfoldable pub pause : StopMessage T → DataManager T I → DataManager T I × List (Outgoing T)
  pause msg m = (run (client msg m) m, stop msg ∷ [])

  unfoldable pub pause_if :
      DataManager T I × Option (StopMessage T) → DataManager T I × List (Outgoing T)
  pause_if (m, none) = (m, [])
  pause_if (m, some msg) = pause msg m

  -- One round of the loop over the watchpoints.
  unfoldable pub visit :
      String → ℤ → ℤ → Watchpoint → DataManager T I → DataManager T I × List (Outgoing T)
  visit counter_name old_value new_value w m =
      if (counter_name == w.counter_name) && not w.disabled
      then pause (watchpoint_hit w.id counter_name old_value new_value) m
      else (m, [])

  -- The loop, from position `i` of the list as it then stands. As many rounds as the list had
  -- entries at first: a list that grows in a pause may be moved, and the iterator with it is lost.
  unfoldable pub visit_all : ℕ → ℕ → String → ℤ → ℤ → DataManager T I → Outcome T I
  visit_all zero i counter_name old_value new_value m =
      if i == length m.watchpoint_list then some (m, []) else none
  visit_all (suc n) i counter_name old_value new_value m =
      if i == length m.watchpoint_list then some (m, []) else (do
        w ← get_elem? m.watchpoint_list i
        let here = visit counter_name old_value new_value w m
        rest ← visit_all n (suc i) counter_name old_value new_value here.0
        some (rest.0, here.1 ++ rest.1))

  unfoldable pub counter_updated : String → ℕ → T → DataManager T I → Outcome T I
  counter_updated counter_name new_value time m = do
    let traces = counter_trace counter_name new_value m
    m1 ← update_counter counter_name (to_int32 new_value) m
    let m2 = update_simulation_time time m1
    stops ←
        visit_all (length m2.watchpoint_list) 0 counter_name (old_value counter_name m)
          (to_int32 new_value) m2
    some (stops.0, traces ++ stops.1)

  -- The common course of `data_written` and `data_read`.
  unfoldable pub data_noticed : Bool → String → Data I → T → DataManager T I → Outcome T I
  data_noticed read module_name packet time m = do
    let m1 = update_simulation_time time m
    let noticed = update_packet (to_int32 packet.id) packet.debug_info module_name time read m1
    let traces = map (update_trace noticed.0) noticed.1
    stops ← if check_ignore_modules module_name noticed.0 then some (noticed.0, []) else (do
      r ←
          check_breakpoint_hit
            (record {
              module_name = module_name;
              packet_id = to_int32 packet.id;
              sim_time = time;
              read = read;
            })
            noticed.0
      some (pause_if r))
    some (stops.0, traces ++ stops.1)

  unfoldable pub data_written : String → Data I → T → DataManager T I → Outcome T I
  data_written from_module packet time m =
      if packet.debuggable then data_noticed false from_module packet time m else some (m, [])

  unfoldable pub data_read : String → Data I → T → DataManager T I → Outcome T I
  data_read to_module packet time m =
      if packet.debuggable then data_noticed true to_module packet time m else some (m, [])

  unfoldable pub data_dropped : String → Data I → String → T → DataManager T I → Outcome T I
  data_dropped in_module packet drop_reason time m =
      if packet.debuggable
      then (let m1 =
            add_dropped_packet (to_int32 packet.id) in_module drop_reason
              (update_simulation_time time m) in
          if m1.break_packet_dropped
          then some (pause (packet_dropped (to_int32 packet.id) in_module drop_reason) m1)
          else some (m1, []))
      else some (m, [])

-- The notices of the simulation, which `notify_observers` runs one after the other as they come out of
-- the queue of events.
pub data Notification (T I : Type 0) : Type 0 where
  counter_is_added : String → T → Notification T I
  counter_is_removed : String → T → Notification T I
  counter_is_updated : String → ℕ → T → Notification T I
  data_is_written : String → Data I → T → Notification T I
  data_is_read : String → Data I → T → Notification T I
  data_is_dropped : String → Data I → String → T → Notification T I
  time_passes : T → Notification T I

module _ {T I : Type 0} ⦃d : Double T⦄ (client : Client T I) where
  unfoldable pub notify : Notification T I → DataManager T I → Outcome T I
  notify (counter_is_added name time) m = counter_added name time m
  notify (counter_is_removed name time) m = counter_removed name time m
  notify (counter_is_updated name v time) m = counter_updated client name v time m
  notify (data_is_written name packet time) m = data_written client name packet time m
  notify (data_is_read name packet time) m = data_read client name packet time m
  notify (data_is_dropped name packet reason time) m = data_dropped client name packet reason time m
  notify (time_passes time) m = time_noticed time m

  unfoldable pub notify_all : List (Notification T I) → DataManager T I → Outcome T I
  notify_all [] m = some (m, [])
  notify_all (e ∷ es) m = do
    here ← notify e m
    rest ← notify_all es here.0
    some (rest.0, here.1 ++ rest.1)
