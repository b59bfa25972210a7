-- ===== src/Debugger/DataManager/FreshIds.antt =====
-- Trace identifiers over every run of operations.
use pfpsim.Common.{
  ℕ, ◌≡◌, ◌≢◌, ◌⊎◌, inl, inr, Bool, true, false, Option, some, List, [], ◌∷◌, String, arith,
  string_eq, ℤ, pos, negsuc, ap, Has, subst, sym,
}
use pfpsim.Double.{Double}
use pfpsim.OrderedMap.{find}
use pfpsim.Debugger.DataManager.{
  LatencyReadTrigger, ThroughputTrigger, DataManager, init, add_counter, remove_counter,
  update_counter, add_breakpoint, remove_breakpoint, enable_breakpoint, disable_breakpoint,
  add_watchpoint, remove_watchpoint, enable_watchpoint, disable_watchpoint, set_whoami,
  add_ignore_module, remove_ignore_module, add_dropped_packet, set_break_on_packet_drop,
  remove_packet, set_simulation_time,
}
use pfpsim.Debugger.DataManager.Traces.{add_counter_trace, add_latency_trace, add_throughput_trace}
use pfpsim.Debugger.DataManager.Packets.{update_packet}
use pfpsim.Debugger.DataManager.Operations.{
  Operation, traces_counter, traces_latency, traces_throughput, updates_packet, apply, run,
}
use pfpsim.Debugger.DataManager.TraceIds.{
  Below, AllBelow, TracesBelow, add_counter_trace-TracesBelow, add_counter_trace_cases,
  add_latency_trace-TracesBelow, add_throughput_trace-TracesBelow, update_throughput-Below,
}

-- A trace that the manager keeps has this identifier.
abbrev pub IsKept : {T I : Type 0} → ℤ → DataManager T I → Type 0
IsKept {T} i m =
    ((k : String) × (find k m.counter_traces ≡ some i))
    ⊎ ((k : String) × (ts : List LatencyReadTrigger) × (t : LatencyReadTrigger) × (find k
            m.latency_read_triggers
          ≡ some ts)
        × Has t ts
        × (t.trace_id ≡ i))
    ⊎ ((k : String) × (t : ThroughputTrigger T) × (find k m.throughput_triggers ≡ some t)
        × (t.trace_id ≡ i))

AllBelow-Has :
    (n : ℕ) (t : LatencyReadTrigger) (ts : List LatencyReadTrigger)
    → AllBelow n ts
    → Has t ts
    → Below n t.trace_id
AllBelow-Has n t [] a h = absurd h
AllBelow-Has n t (u ∷ ts) a (inl e) =
    subst (λ (x : LatencyReadTrigger). Below n x.trace_id) (sym e) a.0
AllBelow-Has n t (u ∷ ts) a (inr h) = AllBelow-Has n t ts a.1 h

Below-ne : (n : ℕ) (i : ℤ) → Below n i → pos n ≢ i
Below-ne n i h e = ground arith

module _ {T I : Type 0} where
  kept-Below : (n : ℕ) (i : ℤ) (m : DataManager T I) → TracesBelow n m → IsKept i m → Below n i
  kept-Below n i m v (inl (k, e)) = v.counters_below k i e
  kept-Below n i m v (inr (inl (k, ts, t, e, h, same))) =
      subst (Below n) same (AllBelow-Has n t ts (v.latencies_below k ts e) h)
  kept-Below n i m v (inr (inr (k, t, e, same))) = subst (Below n) same (v.throughputs_below k t e)

module _ {T I : Type 0} where
  answer :
      (k : String) (m : DataManager T I) {i : ℤ}
      → pos m.trace_id ≢ i
      → ((add_counter_trace k m).1 ≡ negsuc 0)
        ⊎ ((add_counter_trace k m).1 ≡ negsuc 1)
        ⊎ ((add_counter_trace k m).1 ≢ i)
  answer k m {i} fresh = elim (add_counter_trace_cases k m) [
    | inl (_, e) ↦ inl (ap (λ r. r.1) e)
    | inr (inl (_, _, e)) ↦ inr (inl (ap (λ r. r.1) e))
    | inr (inr (_, _, e, _, _)) ↦ inr (inr (subst (λ x. x ≢ i) (sym e) fresh))
  ]

module _ {T I : Type 0} ⦃d : Double T⦄ where
  update_packet-TracesBelow :
      (n : ℕ) (id : ℤ) (di : Option I) (name : String) (time : T) (read : Bool)
      (m : DataManager T I)
      → TracesBelow n m
      → TracesBelow n (update_packet id di name time read m).0
  unfolding update_packet
  update_packet-TracesBelow n id di name time true m v = record {
    counters_below = v.counters_below;
    latencies_below = v.latencies_below;
    throughputs_below = v.throughputs_below;
  }
  update_packet-TracesBelow n id di name time false m v = record {
    counters_below = v.counters_below;
    latencies_below = v.latencies_below;
    throughputs_below =
        update_throughput-Below n name time m.throughput_triggers v.throughputs_below;
  }

  same_traces :
      (m' m : DataManager T I)
      → m'.trace_id ≡ m.trace_id
      → m'.counter_traces ≡ m.counter_traces
      → m'.latency_read_triggers ≡ m.latency_read_triggers
      → m'.throughput_triggers ≡ m.throughput_triggers
      → TracesBelow m.trace_id m
      → TracesBelow m'.trace_id m'
  same_traces m' m n c l t v = rw n (record {
    counters_below = λ k i e. v.counters_below k i (subst (λ x. find k x ≡ some i) c e);
    latencies_below = λ k ts e. v.latencies_below k ts (subst (λ x. find k x ≡ some ts) l e);
    throughputs_below = λ k u e. v.throughputs_below k u (subst (λ x. find k x ≡ some u) t e);
  })

  pub apply-TracesBelow :
      (o : Operation T I) (m : DataManager T I)
      → TracesBelow m.trace_id m
      → TracesBelow (apply o m).trace_id (apply o m)
  unfolding apply add_counter remove_counter update_counter add_breakpoint remove_breakpoint
      enable_breakpoint disable_breakpoint add_watchpoint remove_watchpoint enable_watchpoint
      disable_watchpoint set_whoami add_ignore_module remove_ignore_module add_dropped_packet
      set_break_on_packet_drop remove_packet set_simulation_time add_latency_trace
      add_throughput_trace update_packet
  apply-TracesBelow (traces_counter k) m v = add_counter_trace-TracesBelow k m v
  apply-TracesBelow (traces_latency from to) m v = add_latency_trace-TracesBelow from to m v
  apply-TracesBelow (traces_throughput k) m v = add_throughput_trace-TracesBelow k m v
  apply-TracesBelow (updates_packet id di name time true) m v =
      update_packet-TracesBelow m.trace_id id di name time true m v
  apply-TracesBelow (updates_packet id di name time false) m v =
      update_packet-TracesBelow m.trace_id id di name time false m v
  apply-TracesBelow o m v =
      same_traces (apply o m) m (ground arith) (ground arith) (ground arith) (ground arith) v

  run-TracesBelow :
      (os : List (Operation T I)) (m : DataManager T I)
      → TracesBelow m.trace_id m
      → TracesBelow (run os m).trace_id (run os m)
  unfolding run
  run-TracesBelow [] m v = v
  run-TracesBelow (o ∷ os) m v = run-TracesBelow os (apply o m) (apply-TracesBelow o m v)

  init-TracesBelow : TracesBelow 0 (init {T = T} {I = I})
  unfolding init find
  init-TracesBelow = record {
    counters_below = λ k i e. absurd (ground arith);
    latencies_below = λ k ts e. cc;
    throughputs_below = λ k t e. absurd (ground arith);
  }

  -- After any operations from the start, the identifier that a new trace would get, of any of the
  -- three kinds, is that of no trace that is kept.
  pub fresh_trace_id :
      (os : List (Operation T I)) (i : ℤ)
      → IsKept i (run os (init {T = T} {I = I}))
      → ((k : String)
          → ((add_counter_trace k (run os init)).1 ≡ negsuc 0)
            ⊎ ((add_counter_trace k (run os init)).1 ≡ negsuc 1)
            ⊎ ((add_counter_trace k (run os init)).1 ≢ i))
        × ((from to : String) → (add_latency_trace from to (run os init)).1 ≢ i)
        × ((k : String) → (add_throughput_trace k (run os init)).1 ≢ i)
  unfolding add_latency_trace add_throughput_trace
  fresh_trace_id os i kept = (λ k. answer k (run os init) fresh, λ from to. fresh, λ k. fresh)
    where
      fresh : pos (run os (init {T = T} {I = I})).trace_id ≢ i
      fresh = Below-ne _ i (
          kept-Below _ i (run os init) (run-TracesBelow os init (unfold init in init-TracesBelow))
            kept)
