-- ===== src/Debugger/Observer/Course.antt =====
-- DebugObserver.cpp: the parts of a notice change the data manager by its operations, and none of them
-- but `updateSimulationTime` touches the simulation time.
use pfpsim.Common.{
  bind_keeps, if_keeps, some_keeps, ◌>>=◌, ℕ, zero, suc, ◌≡◌, refl, ◌∙◌, Bool, true, false, not,
  ◌&&◌, Option, none, some, List, [], ◌++◌, String, ◌==◌, nat_eq, string_eq, int_eq, if◌then◌else◌,
  ℤ, length, get_elem?, is_some, Bool-cases, inl, inr,
}
use pfpsim.Double.{Double}
use pfpsim.Debugger.Watchpoint.{Watchpoint}
use pfpsim.Debugger.Message.{StopMessage, watchpoint_hit}
use pfpsim.Debugger.DataManager.{DataManager, update_counter}
use pfpsim.Debugger.DataManager.Packets.{update_packet}
use pfpsim.Debugger.DataManager.Operations.{updates_packet, apply, run}
use pfpsim.Debugger.DataManager.Reached.{
  Reaches, Reaches-refl, Reaches-apply, Reaches-trans, update_counter-Reaches,
}
use pfpsim.KeyOrder.{string_order}
use pfpsim.OrderedMap.{find, assign}
use pfpsim.Debugger.BreakpointHit.{Event, check_breakpoint_hit}
use pfpsim.Debugger.BreakpointHit.Runs.{Quietly, check_breakpoint_hit-Quietly}
use pfpsim.Debugger.Observer.{Client, Outgoing, Outcome, pause, pause_if, visit, visit_all}

module _ {T I : Type 0} ⦃d : Double T⦄ (client : Client T I) where
  -- What the client does in a pause leaves the simulation time alone.
  abbrev pub KeepsTime : Type 0
  KeepsTime =
      (msg : StopMessage T) (m : DataManager T I)
      → (run (client msg m) m).simulation_time ≡ m.simulation_time

  abbrev pub Course : DataManager T I → DataManager T I → Type 0
  Course m m' = Reaches m m' × (KeepsTime → m'.simulation_time ≡ m.simulation_time)

  pub Course-refl : (m : DataManager T I) → Course m m
  Course-refl m = (Reaches-refl m, λ k. refl)

  pub Course-trans : (m n o : DataManager T I) → Course m n → Course n o → Course m o
  Course-trans m n o (a, p) (b, q) = (Reaches-trans m n o a b, λ k. q k ∙ p k)

  Quietly-Course : (m n : DataManager T I) → Quietly m n → Course m n
  Quietly-Course m n (a, p) = (a, λ k. p)

  pub pause-Course : (msg : StopMessage T) (m : DataManager T I) → Course m (pause client msg m).0
  unfolding pause
  pause-Course msg m = ((client msg m, refl), λ k. k msg m)

  -- The same of a result.
  abbrev pub Kept : DataManager T I → DataManager T I × List (Outgoing T) → Type 0
  Kept m r = Course m r.0

  visit-Course :
      (name : String) (old_v new_v : ℤ) (w : Watchpoint) (m : DataManager T I)
      → Course m (visit client name old_v new_v w m).0
  unfolding visit
  visit-Course name old_v new_v w m =
      elim (Bool-cases ((name == w.counter_name) && not w.disabled)) [
        | inl h ↦ rw h (pause-Course (watchpoint_hit w.id name old_v new_v) m)
        | inr h ↦ rw h (Course-refl m)
      ]

  pub visit_all-Course :
      (n i : ℕ) (name : String) (old_v new_v : ℤ) (m : DataManager T I)
      (r : DataManager T I × List (Outgoing T))
      → visit_all client n i name old_v new_v m ≡ some r
      → Course m r.0
  unfolding visit_all
  visit_all-Course zero i name old_v new_v m r h =
      if_keeps (Kept m) (i == length m.watchpoint_list) (some (m, [])) none
        (some_keeps (Kept m) (m, []) (Course-refl m)) (λ r h. absurd cc) r h
  visit_all-Course (suc n) i name old_v new_v m r h =
      let here = λ (w : Watchpoint). visit client name old_v new_v w m in
      let rest = λ (w : Watchpoint). visit_all client n (suc i) name old_v new_v (here w).0 in
      let round : Watchpoint → Outcome T I =
        λ w. (rest w) >>= (λ r. some (r.0, (here w).1 ++ r.1)) in
      if_keeps (Kept m) (i == length m.watchpoint_list) (some (m, []))
        (get_elem? m.watchpoint_list i >>= round) (some_keeps (Kept m) (m, []) (Course-refl m))
        (bind_keeps (Kept m) (get_elem? m.watchpoint_list i) round (λ w r e k.
          bind_keeps (Kept m) (rest w) (λ r. some (r.0, (here w).1 ++ r.1))
            (λ q r e k.
              some_keeps (Kept m) (q.0, (here w).1 ++ q.1)
                (Course-trans m (here w).0 q.0 (visit-Course name old_v new_v w m)
                  (visit_all-Course n (suc i) name old_v new_v (here w).0 q e))
                r k)
            r k))
        r h

  -- The stop at a breakpoint, if the module is not ignored.
  pub checked-Course :
      (ignored : Bool) (ev : Event T) (m : DataManager T I)
      (r : DataManager T I × List (Outgoing T))
      → (if ignored
          then some (m, [])
          else (do r ← check_breakpoint_hit ev m; some (pause_if client r)))
        ≡ some r
      → Course m r.0
  unfolding pause_if
  checked-Course ignored ev m r h =
      if_keeps (Kept m) ignored (some (m, []))
        (check_breakpoint_hit ev m >>= (λ q. some (pause_if client q)))
        (some_keeps (Kept m) (m, []) (Course-refl m))
        (bind_keeps (Kept m) (check_breakpoint_hit ev m) (λ q. some (pause_if client q))
          (λ q r e k.
            some_keeps (Kept m) (pause_if client q)
              (Course-trans m q.0 (pause_if client q).0
                (Quietly-Course m q.0 (check_breakpoint_hit-Quietly ev m q e)) (pause_if-Course q))
              r k))
        r h
    where
      pause_if-Course :
          (q : DataManager T I × Option (StopMessage T)) → Course q.0 (pause_if client q).0
      pause_if-Course (m, none) = Course-refl m
      pause_if-Course (m, some msg) = pause-Course msg m

  pub update_packet-Course :
      (id : ℤ) (di : Option I) (name : String) (time : T) (read : Bool) (m : DataManager T I)
      → Course m (update_packet id di name time read m).0
  unfolding apply update_packet
  update_packet-Course id di name time true m =
      (Reaches-apply (updates_packet id di name time true) m, λ k. refl)
  update_packet-Course id di name time false m =
      (Reaches-apply (updates_packet id di name time false) m, λ k. refl)

  pub update_counter-Course :
      (name : String) (v : ℤ) (m m' : DataManager T I)
      → update_counter name v m ≡ some m'
      → Course m m'
  unfolding update_counter
  update_counter-Course name v m m' h = (
    update_counter-Reaches name v m m' h,
    λ k.
        if_keeps (λ m'. m'.simulation_time ≡ m.simulation_time) (is_some (find name m.counters))
          (some (record m { counters = assign name v m.counters })) none
          (some_keeps (λ m'. m'.simulation_time ≡ m.simulation_time)
            (record m { counters = assign name v m.counters }) refl)
          (λ m' h. absurd cc) m' h,
  )
