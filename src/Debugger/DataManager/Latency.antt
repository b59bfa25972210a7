-- ===== src/Debugger/DataManager/Latency.antt =====
-- Latency traces: the triggers that `updatePacket` keeps implement a queue of open measurements for
-- each module and packet.
use pfpsim.Common.{
  ◌≡◌, ap, ◌&&◌, List, [], ◌∷◌, ◌++◌, String, arith, ◌==◌, string_eq, int_eq, if◌then◌else◌, ℤ, map,
  Option-cases, Bool-cases, inl, inr, Has,
}
use mathlib.Core.List.{append_assoc, append-nil}
use pfpsim.Double.{Double}
use pfpsim.KeyOrder.{string_order, int_order}
use pfpsim.OrderedMap.{find, assign, erase, find-assign, find-erase, find-nil}
use pfpsim.Debugger.DataManager.{LatencyReadTrigger, LatencyWriteTrigger}
use pfpsim.Debugger.DataManager.Packets.{
  WriteTriggers, values_at, triggers_of, arm, arm_all, complete_latencies, latency_data,
}

module _ {T : Type 0} where
  -- The measurements that a write of the packet by the module would complete.
  abbrev pub pending : WriteTriggers T → String → ℤ → List (LatencyWriteTrigger T)
  pending ws m p = triggers_of p (values_at m ws)

  -- The measurements that a read at `time` starts towards module `m`.
  pub started : String → T → List LatencyReadTrigger → List (LatencyWriteTrigger T)
  started m time [] = []
  started m time (t ∷ ts) =
      let rest = started m time ts in
      if m == t.write_module_name
      then record { trace_id = t.trace_id; read_time = time } ∷ rest
      else rest

  pending-arm :
      (t : LatencyReadTrigger) (id : ℤ) (time : T) (ws : WriteTriggers T) (m : String) (p : ℤ)
      → pending (arm t id time ws) m p ≡ (
          if (m == t.write_module_name) && (p == id)
          then pending ws m p ++ record { trace_id = t.trace_id; read_time = time } ∷ []
          else pending ws m p)
  unfolding arm
  pending-arm t id time ws m p =
      let w = t.write_module_name in
      let by_packet = values_at w ws in
      let more =
        triggers_of id by_packet ++ record { trace_id = t.trace_id; read_time = time } ∷ [] in
      ground (
        arith,
        find-assign m w (assign id more by_packet) ws,
        find-assign p id more by_packet,
        string_eq.equal_iff m w,
        int_eq.equal_iff p id,
      )

  -- A read adds to the queues of its own packet, and of the modules its traces end at, alone.
  pub pending-arm_all :
      (ts : List LatencyReadTrigger) (id : ℤ) (time : T) (ws : WriteTriggers T) (m : String) (p : ℤ)
      → pending (arm_all ts id time ws) m p
        ≡ (if p == id then pending ws m p ++ started m time ts else pending ws m p)
  unfolding arm_all started
  pending-arm_all [] id time ws m p = ground (arith, append-nil (pending ws m p))
  pending-arm_all (t ∷ ts) id time ws m p = ground (
    arith,
    pending-arm_all ts id time (arm t id time ws) m p,
    pending-arm t id time ws m p,
    append_assoc (pending ws m p) (record { trace_id = t.trace_id; read_time = time } ∷ [])
        (started m time ts),
  )

module _ {T : Type 0} ⦃d : Double T⦄ where
  pub data-complete_latencies :
      (module_name : String) (id : ℤ) (time : T) (ws : WriteTriggers T)
      → (complete_latencies module_name id time ws).0
        ≡ map (latency_data time) (pending ws module_name id)
  unfolding complete_latencies
  data-complete_latencies module_name id time ws = elim (Option-cases (find module_name ws)) [
    | inl e ↦ ground (arith, find-nil {V = List (LatencyWriteTrigger T)} id)
    | inr (by_packet, e) ↦ ground arith
  ]

  pub pending-complete_latencies :
      (module_name : String) (id : ℤ) (time : T) (ws : WriteTriggers T) (m : String) (p : ℤ)
      → pending (complete_latencies module_name id time ws).1 m p
        ≡ (if (m == module_name) && (p == id) then [] else pending ws m p)
  unfolding complete_latencies
  pending-complete_latencies module_name id time ws m p =
      let by_packet = values_at module_name ws in
      ground (
        arith,
        find-assign m module_name (erase id by_packet) ws,
        find-erase p id by_packet,
        find-nil {V = List (LatencyWriteTrigger T)} p,
        string_eq.equal_iff m module_name,
        int_eq.equal_iff p id,
      )

pub Has-started :
    {T : Type 0} (t : LatencyReadTrigger) (to : String) (time : T) (ts : List LatencyReadTrigger)
    → t.write_module_name ≡ to
    → Has t ts
    → Has (record { trace_id = t.trace_id; read_time = time }) (started to time ts)
unfolding started
Has-started t to time [] e h = absurd h
Has-started t to time (u ∷ ts) e (inl same) = elim (Bool-cases (to == u.write_module_name)) [
  | inl hit ↦ rw hit (
      inl
        (ap (λ (x : LatencyReadTrigger). record { trace_id = x.trace_id; read_time = time }) same))
  | inr miss ↦ absurd (ground (arith, string_eq.equal_iff to u.write_module_name))
]
Has-started t to time (u ∷ ts) e (inr h) = elim (Bool-cases (to == u.write_module_name)) [
  | inl hit ↦ rw hit (inr (Has-started t to time ts e h))
  | inr miss ↦ rw miss (Has-started t to time ts e h)
]
