-- ===== src/Debugger/DataManager/TraceIds.antt =====
-- Trace identifiers are never used twice.
use pfpsim.Common.{
  ℕ, suc, ◌<◌, ◌≡◌, refl, ◌⊎◌, inl, inr, true, false, Option, none, some, List, [], ◌∷◌, ◌++◌,
  String, arith, ◌==◌, string_eq, if◌then◌else◌, ℤ, pos, negsuc, or_else, is_some, Bool-cases,
  Option-cases,
}
use pfpsim.Double.{Double}
use pfpsim.KeyOrder.{string_order}
use pfpsim.OrderedMap.{Map, find, find-assign, find-assign_all}
use pfpsim.Debugger.DataManager.{LatencyReadTrigger, ThroughputTrigger, DataManager}
use pfpsim.Debugger.DataManager.Packets.{update_throughput}
use pfpsim.Debugger.DataManager.Traces.{
  add_counter_trace, add_latency_trace, add_throughput_trace, get_counter_trace_id,
}

module _ {T I : Type 0} where
  -- What `addCounterTrace` answers and does, in all its cases: no such counter, a counter that is
  -- traced already, and a new trace, which `getCounterTraceId` then finds and which leaves the traces
  -- of all other counters.
  pub add_counter_trace_cases :
      (k : String) (m : DataManager T I)
      → ((is_some (find k m.counters) ≡ false) × (add_counter_trace k m ≡ (m, negsuc 0)))
        ⊎ ((is_some (find k m.counters) ≡ true)
            × (is_some (find k m.counter_traces) ≡ true)
            × (add_counter_trace k m ≡ (m, negsuc 1)))
        ⊎ ((is_some (find k m.counters) ≡ true)
            × (is_some (find k m.counter_traces) ≡ false)
            × ((add_counter_trace k m).1 ≡ pos m.trace_id)
            × ((add_counter_trace k m).0.trace_id ≡ suc m.trace_id)
            × ((j : String)
                → get_counter_trace_id j (add_counter_trace k m).0
                  ≡ (if j == k then pos m.trace_id else get_counter_trace_id j m)))
  unfolding add_counter_trace get_counter_trace_id
  add_counter_trace_cases k m = elim (Bool-cases (is_some (find k m.counters))) [
    | inr missing ↦ inl (missing, ground arith)
    | inl there ↦ elim (Bool-cases (is_some (find k m.counter_traces))) [
      | inl old ↦ inr (inl (there, old, ground arith))
      | inr new ↦ inr (
          inr (
            there,
            new,
            ground arith,
            ground arith,
            λ j. ground (arith, find-assign j k (pos m.trace_id) m.counter_traces),
          ))
    ]
  ]

abbrev pub Below : ℕ → ℤ → Type 0
Below n (pos i) = i < n
Below n (negsuc i) = ⊥

abbrev pub AllBelow : ℕ → List LatencyReadTrigger → Type 0
AllBelow n [] = Unit {0}
AllBelow n (t ∷ ts) = Below n t.trace_id × AllBelow n ts

-- Every trace that is kept has an identifier that was handed out.
pub record TracesBelow {T I : Type 0} (n : ℕ) (m : DataManager T I) : Type 0 where
  pub counters_below : (k : String) (i : ℤ) → find k m.counter_traces ≡ some i → Below n i
  pub latencies_below :
      (k : String) (ts : List LatencyReadTrigger)
      → find k m.latency_read_triggers ≡ some ts
      → AllBelow n ts
  pub throughputs_below :
      (k : String) (t : ThroughputTrigger T)
      → find k m.throughput_triggers ≡ some t
      → Below n t.trace_id

Below-suc : (n : ℕ) (i : ℤ) → Below n i → Below (suc n) i
Below-suc n (pos i) h = omega arith
Below-suc n (negsuc i) h = h

AllBelow-suc : (n : ℕ) (ts : List LatencyReadTrigger) → AllBelow n ts → AllBelow (suc n) ts
AllBelow-suc n [] h = tt
AllBelow-suc n (t ∷ ts) h = (Below-suc n t.trace_id h.0, AllBelow-suc n ts h.1)

AllBelow-append :
    (n : ℕ) (ts : List LatencyReadTrigger) (t : LatencyReadTrigger)
    → AllBelow n ts
    → Below n t.trace_id
    → AllBelow n (ts ++ t ∷ [])
AllBelow-append n [] t h b = (b, tt)
AllBelow-append n (u ∷ ts) t h b = (h.0, AllBelow-append n ts t h.1 b)

AllBelow-or_else :
    (n : ℕ) (o : Option (List LatencyReadTrigger))
    → ((ts : List LatencyReadTrigger) → o ≡ some ts → AllBelow n ts)
    → AllBelow n (or_else o [])
AllBelow-or_else n none h = tt
AllBelow-or_else n (some ts) h = h ts refl

module _ {T I : Type 0} where
  pub TracesBelow-suc : (n : ℕ) (m : DataManager T I) → TracesBelow n m → TracesBelow (suc n) m
  TracesBelow-suc n m v = record {
    counters_below = λ k i e. Below-suc n i (v.counters_below k i e);
    latencies_below = λ k ts h. AllBelow-suc n ts (v.latencies_below k ts h);
    throughputs_below = λ k t e. Below-suc n t.trace_id (v.throughputs_below k t e);
  }

  pub add_counter_trace-TracesBelow :
      (k : String) (m : DataManager T I)
      → TracesBelow m.trace_id m
      → TracesBelow (add_counter_trace k m).0.trace_id (add_counter_trace k m).0
  unfolding add_counter_trace
  add_counter_trace-TracesBelow k m v = elim (Bool-cases (is_some (find k m.counters))) [
    | inr missing ↦ rw (missing, add_counter_trace) v
    | inl there ↦ elim (Bool-cases (is_some (find k m.counter_traces))) [
      | inl old ↦ rw (there, add_counter_trace) (rw (old, add_counter_trace) v)
      | inr new ↦
          let w = TracesBelow-suc m.trace_id m v in
          rw (there, add_counter_trace)
            (rw (new, add_counter_trace)
              (record {
                counters_below =
                    find-assign_all (Below (suc m.trace_id)) k (pos m.trace_id) m.counter_traces
                      (omega arith) w.counters_below;
                latencies_below = w.latencies_below;
                throughputs_below = w.throughputs_below;
              }))
    ]
  ]

  pub add_latency_trace-TracesBelow :
      (from to : String) (m : DataManager T I)
      → TracesBelow m.trace_id m
      → TracesBelow (suc m.trace_id) (add_latency_trace from to m).0
  unfolding add_latency_trace
  add_latency_trace-TracesBelow from to m v =
      let w = TracesBelow-suc m.trace_id m v in
      record {
        counters_below = w.counters_below;
        latencies_below =
            find-assign_all (AllBelow (suc m.trace_id)) from _ m.latency_read_triggers
              (AllBelow-append (suc m.trace_id) (or_else (find from m.latency_read_triggers) []) _
                (AllBelow-or_else (suc m.trace_id) (find from m.latency_read_triggers)
                  (w.latencies_below from))
                (omega arith))
              w.latencies_below;
        throughputs_below = w.throughputs_below;
      }

module _ {T I : Type 0} ⦃d : Double T⦄ where
  pub add_throughput_trace-TracesBelow :
      (k : String) (m : DataManager T I)
      → TracesBelow m.trace_id m
      → TracesBelow (suc m.trace_id) (add_throughput_trace k m).0
  unfolding add_throughput_trace
  add_throughput_trace-TracesBelow k m v =
      let w = TracesBelow-suc m.trace_id m v in
      record {
        counters_below = w.counters_below;
        latencies_below = w.latencies_below;
        throughputs_below =
            find-assign_all (λ t. Below (suc m.trace_id) t.trace_id) k _ m.throughput_triggers
              (omega arith) w.throughputs_below;
      }

module _ {T : Type 0} ⦃d : Double T⦄ where
  pub update_throughput-Below :
      (n : ℕ) (k : String) (time : T) (ts : Map String (ThroughputTrigger T))
      → ((j : String) (t : ThroughputTrigger T) → find j ts ≡ some t → Below n t.trace_id)
      → (j : String) (t : ThroughputTrigger T) → find j (update_throughput k time ts).1 ≡ some t
      → Below n t.trace_id
  unfolding update_throughput
  update_throughput-Below n k time ts h j t e = elim (Option-cases (find k ts)) [
    | inl missing ↦ h j t (rw (missing, update_throughput) at e)
    | inr (old, there) ↦
        find-assign_all (λ t. Below n t.trace_id) k (record old { last_time = time }) ts
          (h k old there) h j t (rw (there, update_throughput) at e)
  ]
