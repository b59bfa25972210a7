-- ===== src/Debugger/Observer/Time.antt =====
-- DebugObserver.cpp: what the notices do to the simulation time, and the data manager's operations
-- that they consist of.
use pfpsim.Common.{
  bind_keeps, if_keeps, some_keeps, ◌>>=◌, ℕ, ◌≡◌, refl, ap, ◌∙◌, inl, inr, Bool, true, false,
  Option, none, some, List, [], ◌++◌, String, map, if◌then◌else◌, ℤ, to_int32, length, Bool-cases,
}
use pfpsim.Double.{Double}
use pfpsim.Debugger.Message.{packet_dropped}
use pfpsim.Debugger.DataManager.{
  DataManager, add_counter, remove_counter, update_counter, check_ignore_modules,
  add_dropped_packet, set_simulation_time,
}
use pfpsim.Debugger.DataManager.Packets.{update_packet}
use pfpsim.Debugger.DataManager.Operations.{adds_counter, removes_counter, sets_time, drops, apply}
use pfpsim.Debugger.DataManager.Reached.{Reaches, Reaches-refl, Reaches-apply, Reaches-trans}
use pfpsim.Debugger.BreakpointHit.{Event, check_breakpoint_hit}
use pfpsim.Debugger.Observer.{
  Client, Outgoing, Outcome, Data, Notification, counter_is_added, counter_is_removed,
  counter_is_updated, data_is_written, data_is_read, data_is_dropped, time_passes,
  update_simulation_time, update_trace, pause, pause_if, visit_all, old_value, counter_trace,
  counter_added, counter_removed, counter_updated, data_noticed, data_written, data_read,
  data_dropped, time_noticed, notify,
}
use pfpsim.Debugger.Observer.Course.{
  KeepsTime, Course, Course-trans, pause-Course, visit_all-Course, checked-Course,
  update_packet-Course, update_counter-Course,
}

-- The time that a notice brings; packets that are not debuggable bring none.
abbrev pub observed : {T I : Type 0} → Notification T I → Option T
observed (counter_is_added name time) = some time
observed (counter_is_removed name time) = some time
observed (counter_is_updated name v time) = some time
observed (data_is_written name packet time) = if packet.debuggable then some time else none
observed (data_is_read name packet time) = if packet.debuggable then some time else none
observed (data_is_dropped name packet reason time) = if packet.debuggable then some time else none
observed (time_passes time) = some time

-- The later of the two times.
abbrev pub advanced : {T : Type 0} ⦃d : Double T⦄ → Option T → T → T
advanced none now = now
advanced ⦃d⦄ (some time) now = if d.less now time then time else now

module _ {T I : Type 0} ⦃d : Double T⦄ (client : Client T I) where
  abbrev pub Moved : Option T → DataManager T I → DataManager T I → Type 0
  Moved o m m' =
      Reaches m m' × (KeepsTime client → m'.simulation_time ≡ advanced o m.simulation_time)

  abbrev MovedTo : Option T → DataManager T I → DataManager T I × List (Outgoing T) → Type 0
  MovedTo o m r = Moved o m r.0

  update_simulation_time-Moved :
      (t : T) (m : DataManager T I) → Moved (some t) m (update_simulation_time t m)
  unfolding update_simulation_time apply set_simulation_time
  update_simulation_time-Moved t m = elim (Bool-cases (d.less m.simulation_time t)) [
    | inl h ↦ rw h (Reaches-apply (sets_time t) m, λ k. refl)
    | inr h ↦ rw h (Reaches-refl m, λ k. refl)
  ]

  Moved-Course :
      (o : Option T) (m n p : DataManager T I) → Moved o m n → Course client n p → Moved o m p
  Moved-Course o m n p (a, f) (b, g) = (Reaches-trans m n p a b, λ k. g k ∙ f k)

  Course-Moved :
      (o : Option T) (m n p : DataManager T I) → Course client m n → Moved o n p → Moved o m p
  Course-Moved o m n p (a, f) (b, g) = (Reaches-trans m n p a b, λ k. g k ∙ ap (advanced o) (f k))

  counter_updated-Moved :
      (name : String) (v : ℕ) (time : T) (m : DataManager T I)
      (r : DataManager T I × List (Outgoing T))
      → counter_updated client name v time m ≡ some r
      → MovedTo (some time) m r
  unfolding counter_updated
  counter_updated-Moved name v time m r h =
      let P = MovedTo (some time) m in
      let traces = counter_trace name v m in
      let loop = λ (m1 : DataManager T I).
        visit_all client (length (update_simulation_time time m1).watchpoint_list) 0 name
          (old_value name m) (to_int32 v) (update_simulation_time time m1) in
      bind_keeps P (update_counter name (to_int32 v) m)
        (λ m1. loop m1 >>= (λ q. some (q.0, traces ++ q.1)))
        (λ m1 r e k.
          bind_keeps P (loop m1) (λ q. some (q.0, traces ++ q.1))
            (λ q r f k.
              some_keeps P (q.0, traces ++ q.1)
                (Course-Moved (some time) m m1 q.0
                  (update_counter-Course client name (to_int32 v) m m1 e)
                  (Moved-Course (some time) m1 (update_simulation_time time m1) q.0
                    (update_simulation_time-Moved time m1)
                    (visit_all-Course client
                      (length (update_simulation_time time m1).watchpoint_list) 0 name
                      (old_value name m) (to_int32 v) (update_simulation_time time m1) q f)))
                r k)
            r k)
        r h

  data_noticed-Moved :
      (read : Bool) (name : String) (packet : Data I) (time : T) (m : DataManager T I)
      (r : DataManager T I × List (Outgoing T))
      → data_noticed client read name packet time m ≡ some r
      → MovedTo (some time) m r
  unfolding data_noticed
  data_noticed-Moved read name packet time m r h =
      let m1 = update_simulation_time time m in
      let noticed = update_packet (to_int32 packet.id) packet.debug_info name time read m1 in
      let traces = map (update_trace noticed.0) noticed.1 in
      let ev : Event T = record {
        module_name = name;
        packet_id = to_int32 packet.id;
        sim_time = time;
        read = read;
      } in
      bind_keeps (MovedTo (some time) m)
        (if check_ignore_modules name noticed.0
          then some (noticed.0, [])
          else (do r ← check_breakpoint_hit ev noticed.0; some (pause_if client r)))
        (λ q. some (q.0, traces ++ q.1))
        (λ q r e k.
          some_keeps (MovedTo (some time) m) (q.0, traces ++ q.1)
            (Moved-Course (some time) m m1 q.0 (update_simulation_time-Moved time m) (
              Course-trans client m1 noticed.0 q.0
                (update_packet-Course client (to_int32 packet.id) packet.debug_info name time read
                  m1)
                (checked-Course client (check_ignore_modules name noticed.0) ev noticed.0 q e)))
            r k)
        r h

  -- A handler that first looks whether the packet is debuggable.
  guarded-MovedTo :
      (debuggable : Bool) (time : T) (m : DataManager T I) (x : Outcome T I)
      → ((r : DataManager T I × List (Outgoing T)) → x ≡ some r → MovedTo (some time) m r)
      → (r : DataManager T I × List (Outgoing T))
      → (if debuggable then x else some (m, [])) ≡ some r
      → MovedTo (if debuggable then some time else none) m r
  guarded-MovedTo true time m x f r h = f r h
  guarded-MovedTo false time m x f r h =
      some_keeps (MovedTo none m) (m, []) (Reaches-refl m, λ k. refl) r h

  dropped-MovedTo :
      (breaks : Bool) (id : ℤ) (name reason : String) (time : T) (m : DataManager T I)
      (r : DataManager T I × List (Outgoing T))
      → (let m1 = add_dropped_packet id name reason (update_simulation_time time m) in
          if breaks then some (pause client (packet_dropped id name reason) m1) else some (m1, []))
        ≡ some r
      → MovedTo (some time) m r
  unfolding add_dropped_packet apply
  dropped-MovedTo breaks id name reason time m r h =
      let m1 = update_simulation_time time m in
      let m2 = add_dropped_packet id name reason m1 in
      let dropped : Course client m1 m2 = (Reaches-apply (drops id name reason) m1, λ k. refl) in
      let moved : Moved (some time) m m2 =
        Moved-Course (some time) m m1 m2 (update_simulation_time-Moved time m) dropped in
      if_keeps (MovedTo (some time) m) breaks
        (some (pause client (packet_dropped id name reason) m2)) (some (m2, []))
        (some_keeps (MovedTo (some time) m) (pause client (packet_dropped id name reason) m2) (
          Moved-Course (some time) m m2 (pause client (packet_dropped id name reason) m2).0 moved
            (pause-Course client (packet_dropped id name reason) m2)))
        (some_keeps (MovedTo (some time) m) (m2, []) moved) r h

  -- A notice is a sequence of the data manager's operations, and afterwards the simulation time is
  -- the later of what it was and what the notice brings.
  pub notify-Moved :
      (e : Notification T I) (m : DataManager T I) (r : DataManager T I × List (Outgoing T))
      → notify client e m ≡ some r
      → Moved (observed e) m r.0
  unfolding add_counter remove_counter notify counter_added counter_removed data_written data_read
      data_dropped time_noticed apply
  notify-Moved (counter_is_added name time) m r h =
      some_keeps (MovedTo (some time) m) _
        (Course-Moved (some time) m (add_counter name m) _
          (Reaches-apply (adds_counter name) m, λ k. refl)
          (update_simulation_time-Moved time (add_counter name m)))
        r h
  notify-Moved (counter_is_removed name time) m r h =
      some_keeps (MovedTo (some time) m) _
        (Course-Moved (some time) m (remove_counter name m) _
          (Reaches-apply (removes_counter name) m, λ k. refl)
          (update_simulation_time-Moved time (remove_counter name m)))
        r h
  notify-Moved (counter_is_updated name v time) m r h = counter_updated-Moved name v time m r h
  notify-Moved (data_is_written name packet time) m r h =
      guarded-MovedTo packet.debuggable time m (data_noticed client false name packet time m)
        (data_noticed-Moved false name packet time m) r h
  notify-Moved (data_is_read name packet time) m r h =
      guarded-MovedTo packet.debuggable time m (data_noticed client true name packet time m)
        (data_noticed-Moved true name packet time m) r h
  notify-Moved (data_is_dropped name packet reason time) m r h =
      guarded-MovedTo packet.debuggable time m _
        (λ r. dropped-MovedTo _ (to_int32 packet.id) name reason time m r) r h
  notify-Moved (time_passes time) m r h =
      some_keeps (MovedTo (some time) m) (update_simulation_time time m, [])
        (update_simulation_time-Moved time m) r h
