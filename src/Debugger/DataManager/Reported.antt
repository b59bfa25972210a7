-- ===== src/Debugger/DataManager/Reported.antt =====
-- What a latency trace reports to its user.
use pfpsim.Common.{
  ◌≡◌, true, false, ◌&&◌, List, [], ◌∷◌, String, ◌==◌, string_eq, int_eq, ℤ, Bool-cases, inl, inr,
  ◌⊎◌, Has, Has-append_left, Has-append_right, Has-map,
}
use pfpsim.Double.{Double}
use pfpsim.Debugger.DataManager.{LatencyReadTrigger, LatencyWriteTrigger, DataManager}
use pfpsim.Debugger.DataManager.Packets.{values_at, latency_data}
use pfpsim.Debugger.DataManager.Latency.{started, Has-started}
use pfpsim.Debugger.DataManager.Measurement.{
  Notice, Queues, Traces, queues, spec_step, spec_run, observe, observe_all, observe-refines,
}

module _ {T I : Type 0} where
  -- None of the notices is a write of the packet by the module.
  abbrev pub NoWrite : String → ℤ → List (Notice T I) → Type 0
  NoWrite to id [] = Unit {0}
  NoWrite to id (n ∷ ns) =
      ((n.read ≡ true) ⊎ (((to == n.module_name) && (id == n.id)) ≡ false)) × NoWrite to id ns

  spec_step_keeps_read :
      (x : LatencyWriteTrigger T) (ts : Traces) (n : Notice T I) (q : Queues T) (to : String)
      (id : ℤ)
      → n.read ≡ true
      → Has x (q to id)
      → Has x (spec_step ts n q to id)
  unfolding spec_step
  spec_step_keeps_read x ts n q to id e h = elim (Bool-cases (id == n.id)) [
    | inl mine ↦
        rw (e, mine)
          (Has-append_left x (q to id) (started to n.time (values_at n.module_name ts)) h)
    | inr other ↦ rw (e, other) h
  ]

  spec_step_keeps_write :
      (x : LatencyWriteTrigger T) (ts : Traces) (n : Notice T I) (q : Queues T) (to : String)
      (id : ℤ)
      → n.read ≡ false
      → ((to == n.module_name) && (id == n.id)) ≡ false
      → Has x (q to id)
      → Has x (spec_step ts n q to id)
  unfolding spec_step
  spec_step_keeps_write x ts n q to id w e h = rw (w, e) h

  spec_step_keeps :
      (x : LatencyWriteTrigger T) (ts : Traces) (n : Notice T I) (q : Queues T) (to : String)
      (id : ℤ)
      → (n.read ≡ true) ⊎ (((to == n.module_name) && (id == n.id)) ≡ false)
      → Has x (q to id)
      → Has x (spec_step ts n q to id)
  spec_step_keeps x ts n q to id (inl e) h = spec_step_keeps_read x ts n q to id e h
  spec_step_keeps x ts n q to id (inr e) h = elim (Bool-cases n.read) [
    | inl r ↦ spec_step_keeps_read x ts n q to id r h
    | inr w ↦ spec_step_keeps_write x ts n q to id w e h
  ]

  spec_run_keeps :
      (x : LatencyWriteTrigger T) (ts : Traces) (ns : List (Notice T I)) (q : Queues T)
      (to : String) (id : ℤ)
      → NoWrite to id ns
      → Has x (q to id)
      → Has x (spec_run ts ns q to id)
  unfolding spec_run
  spec_run_keeps x ts [] q to id quiet h = h
  spec_run_keeps x ts (n ∷ ns) q to id quiet h =
      spec_run_keeps x ts ns (spec_step ts n q) to id quiet.1
        (spec_step_keeps x ts n q to id quiet.0 h)

  spec_step_starts :
      (t : LatencyReadTrigger) (ts : Traces) (n : Notice T I) (q : Queues T) (to : String) (id : ℤ)
      → n.read ≡ true
      → id ≡ n.id
      → t.write_module_name ≡ to
      → Has t (values_at n.module_name ts)
      → Has (record { trace_id = t.trace_id; read_time = n.time }) (spec_step ts n q to id)
  unfolding spec_step
  spec_step_starts t ts n q to id r i e h =
      let hit : (id == n.id) ≡ true = (int_eq.equal_iff id n.id).1 i in
      rw (r, hit)
        (Has-append_right _ (q to id) _ (Has-started t to n.time (values_at n.module_name ts) e h))

module _ {T I : Type 0} ⦃d : Double T⦄ where
  -- A packet that is read by the module where a latency trace begins, and is then written by the
  -- module where it ends, has the time between the two reported for that trace, whatever was noticed
  -- in between but another write of the packet by that module.
  pub latency_reported :
      (t : LatencyReadTrigger) (first last : Notice T I) (ns : List (Notice T I))
      (dm : DataManager T I)
      → Has t (values_at first.module_name dm.latency_read_triggers)
      → t.write_module_name ≡ last.module_name
      → first.read ≡ true
      → last.read ≡ false
      → last.id ≡ first.id
      → NoWrite last.module_name last.id ns
      → Has
          (record { id = t.trace_id; value = d.minus last.time first.time })
          (observe last (observe_all (first ∷ ns) dm)).1
  unfolding spec_run latency_data
  latency_reported t first last ns dm held ends r w same quiet =
      let ts = dm.latency_read_triggers in
      let q = spec_step ts first (queues dm) in
      let opened : Has (record { trace_id = t.trace_id; read_time = first.time })
          (spec_run ts ns q last.module_name last.id) =
        spec_run_keeps _ ts ns q last.module_name last.id quiet
          (spec_step_starts t ts first (queues dm) last.module_name last.id r same ends held) in
      rw ((observe-refines (first ∷ ns) last dm).1, w)
        (Has-append_left _ _ _ (Has-map (latency_data last.time) _ _ opened))
