-- ===== src/Debugger/DataManager/Measurement.antt =====
-- A run of packet notices through `updatePacket`, against queues of open latency measurements.
use pfpsim.Common.{
  ◌≡◌, refl, ap, ◌∙◌, Bool, ◌&&◌, Option, List, [], ◌∷◌, ◌++◌, String, arith, ◌==◌, string_eq,
  int_eq, if◌then◌else◌, ℤ, map, Bool-cases, inl, inr,
}
use mathlib.Core.Path.{fun_ext, ap₂}
use pfpsim.Double.{Double}
use pfpsim.OrderedMap.{Map}
use pfpsim.Debugger.DataManager.{LatencyReadTrigger, LatencyWriteTrigger, DataManager}
use pfpsim.Debugger.DataManager.Packets.{
  TraceData, values_at, latency_data, update_packet, update_throughput,
}
use pfpsim.Debugger.DataManager.Latency.{
  pending, started, pending-arm_all, data-complete_latencies, pending-complete_latencies,
}

-- The arguments of one call of `updatePacket`.
pub record Notice (T I : Type 0) : Type 0 where
  pub id : ℤ
  pub debug_info : Option I
  pub module_name : String
  pub time : T
  pub read : Bool

-- The open measurements of each module and packet, oldest first.
abbrev pub Queues : Type 0 → Type 0
Queues T = String → ℤ → List (LatencyWriteTrigger T)

abbrev pub Traces : Type 0
Traces = Map String (List LatencyReadTrigger)

module _ {T I : Type 0} where
  abbrev pub queues : DataManager T I → Queues T
  queues m = pending m.latency_write_triggers

  -- A read opens a measurement for each latency trace that begins at its module; a write closes all
  -- those of its module and packet.
  unfoldable pub spec_step : Traces → Notice T I → Queues T → Queues T
  spec_step ts n q m p =
      if n.read
      then (if p == n.id then q m p ++ started m n.time (values_at n.module_name ts) else q m p)
      else (if (m == n.module_name) && (p == n.id) then [] else q m p)

  unfoldable pub spec_run : Traces → List (Notice T I) → Queues T → Queues T
  spec_run ts [] q = q
  spec_run ts (n ∷ ns) q = spec_run ts ns (spec_step ts n q)

module _ {T I : Type 0} ⦃d : Double T⦄ where
  unfoldable pub observe : Notice T I → DataManager T I → DataManager T I × List (TraceData T)
  observe n m = update_packet n.id n.debug_info n.module_name n.time n.read m

  unfoldable pub observe_all : List (Notice T I) → DataManager T I → DataManager T I
  observe_all [] m = m
  observe_all (n ∷ ns) m = observe_all ns (observe n m).0

  observe-triggers :
      (n : Notice T I) (m : DataManager T I)
      → (observe n m).0.latency_read_triggers ≡ m.latency_read_triggers
  unfolding observe update_packet
  observe-triggers n m = ground arith

  observe_at :
      (n : Notice T I) (dm : DataManager T I) (m : String) (p : ℤ)
      → queues (observe n dm).0 m p ≡ spec_step dm.latency_read_triggers n (queues dm) m p
  unfolding observe update_packet spec_step
  observe_at n dm m p = elim (Bool-cases n.read) [
    | inl e ↦
        rw (e, update_packet)
          (pending-arm_all (values_at n.module_name dm.latency_read_triggers) n.id n.time
            dm.latency_write_triggers m p)
    | inr e ↦
        rw (e, update_packet)
          (pending-complete_latencies n.module_name n.id n.time dm.latency_write_triggers m p)
  ]

  observe-spec_step :
      (n : Notice T I) (dm : DataManager T I)
      → queues (observe n dm).0 ≡ spec_step dm.latency_read_triggers n (queues dm)
  observe-spec_step n dm = fun_ext (λ m. fun_ext (λ p. observe_at n dm m p))

  observe_all-spec_run :
      (ns : List (Notice T I)) (dm : DataManager T I)
      → queues (observe_all ns dm) ≡ spec_run dm.latency_read_triggers ns (queues dm)
  unfolding observe_all spec_run
  observe_all-spec_run [] dm = refl
  observe_all-spec_run (n ∷ ns) dm =
      observe_all-spec_run ns (observe n dm).0
      ∙ ap₂ (λ ts q. spec_run ts ns q) (observe-triggers n dm) (observe-spec_step n dm)

  observe_all-triggers :
      (ns : List (Notice T I)) (dm : DataManager T I)
      → (observe_all ns dm).latency_read_triggers ≡ dm.latency_read_triggers
  unfolding observe_all
  observe_all-triggers [] dm = refl
  observe_all-triggers (n ∷ ns) dm =
      observe_all-triggers ns (observe n dm).0 ∙ observe-triggers n dm

  reports-queues :
      (n : Notice T I) (dm : DataManager T I)
      → (observe n dm).1 ≡ (
          if n.read
          then []
          else map (latency_data n.time) (queues dm n.module_name n.id)
            ++ (update_throughput n.module_name n.time dm.throughput_triggers).0)
  unfolding observe update_packet
  reports-queues n dm =
      ground (arith, data-complete_latencies n.module_name n.id n.time dm.latency_write_triggers)

  -- After any notices, the triggers stand for the queues of the abstract run, the next notice moves
  -- both alike, and it reports nothing if it is a read, and otherwise the latencies of the queue of
  -- its module and packet, oldest first, before the module's rate.
  pub observe-refines :
      (ns : List (Notice T I)) (n : Notice T I) (dm : DataManager T I)
      → let q = spec_run dm.latency_read_triggers ns (queues dm) in
        let before = observe_all ns dm in
        (queues (observe n before).0 ≡ spec_step dm.latency_read_triggers n q)
        × ((observe n before).1 ≡ (
            if n.read
            then []
            else map (latency_data n.time) (q n.module_name n.id)
              ++ (update_throughput n.module_name n.time before.throughput_triggers).0))
  observe-refines ns n dm = (
    observe-spec_step n (observe_all ns dm)
        ∙ ap₂ (λ ts q. spec_step ts n q) (observe_all-triggers ns dm) (observe_all-spec_run ns dm),
    reports-queues n (observe_all ns dm)
        ∙ ap
            (λ q.
              if n.read
              then []
              else map (latency_data n.time) (q n.module_name n.id)
                ++ (update_throughput n.module_name n.time
                    (observe_all ns dm).throughput_triggers).0)
            (observe_all-spec_run ns dm),
  )
