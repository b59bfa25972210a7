-- ===== src/Debugger/BreakpointHit/Runs.antt =====
-- DebugObserver.cpp: `checkBreakpointHit` changes the data manager by its operations and leaves the
-- simulation time alone.
use pfpsim.Common.{
  bind_keeps, if_keeps, some_keeps, ◌≡◌, refl, ◌∙◌, Option, none, some, ◌==◌, int_eq, if◌then◌else◌,
  ℤ, minus_one, Bool-cases, inl, inr, ℕ, get_elem?,
}
use pfpsim.Double.{Double}
use pfpsim.Debugger.Breakpoint.{Breakpoint}
use pfpsim.Debugger.Message.{StopMessage}
use pfpsim.Debugger.DataManager.{DataManager, set_whoami, remove_breakpoint}
use pfpsim.Debugger.DataManager.Operations.{removes_breakpoint, sets_whoami, apply}
use pfpsim.Debugger.DataManager.Reached.{Reaches, Reaches-refl, Reaches-apply, Reaches-trans}
use pfpsim.Debugger.BreakpointHit.{
  Event, find_hit, pointee, drop_temporary, stop_at, hit_at, check_breakpoint_hit, hit_message,
}

module _ {T I : Type 0} ⦃d : Double T⦄ where
  -- Both what is reached and the time.
  abbrev pub Quietly : DataManager T I → DataManager T I → Type 0
  Quietly m m' = Reaches m m' × (m'.simulation_time ≡ m.simulation_time)

  pub Quietly-trans : (m n o : DataManager T I) → Quietly m n → Quietly n o → Quietly m o
  Quietly-trans m n o (a, p) (b, q) = (Reaches-trans m n o a b, q ∙ p)

  remove_breakpoint-Quietly : (id : ℤ) (m : DataManager T I) → Quietly m (remove_breakpoint id m)
  unfolding apply remove_breakpoint
  remove_breakpoint-Quietly id m = (Reaches-apply (removes_breakpoint id) m, refl)

  set_whoami-Quietly : (id : ℤ) (m : DataManager T I) → Quietly m (set_whoami id m)
  unfolding apply set_whoami
  set_whoami-Quietly id m = (Reaches-apply (sets_whoami id) m, refl)

  drop_temporary-Quietly : (b : Breakpoint) (m : DataManager T I) → Quietly m (drop_temporary b m)
  unfolding drop_temporary
  drop_temporary-Quietly b m = elim (Bool-cases b.temp) [
    | inl h ↦ rw h (remove_breakpoint-Quietly b.id m)
    | inr h ↦ rw h (Reaches-refl m, refl)
  ]

  stealth_removed-Quietly :
      (b : Breakpoint) (m : DataManager T I)
      → Quietly m (if b.id == minus_one then m else remove_breakpoint minus_one m)
  stealth_removed-Quietly b m = elim (Bool-cases (b.id == minus_one)) [
    | inl h ↦ rw h (Reaches-refl m, refl)
    | inr h ↦ rw h (remove_breakpoint-Quietly minus_one m)
  ]

  stop_at-Quietly :
      (ev : Event T) (i : ℕ) (b : Breakpoint) (m : DataManager T I)
      (r : DataManager T I × Option (StopMessage T))
      → stop_at ev i b m ≡ some r
      → Quietly m r.0
  unfolding stop_at
  stop_at-Quietly ev i b m r h =
      let m1 = set_whoami ev.packet_id m in
      let m2 = if b.id == minus_one then m1 else remove_breakpoint minus_one m1 in
      bind_keeps (λ r. Quietly m r.0) (pointee i m2)
        (λ b'. some (drop_temporary b' m2, some (hit_message ev b)))
        (λ b' r e k.
          some_keeps (λ r. Quietly m r.0) (drop_temporary b' m2, some (hit_message ev b))
            (Quietly-trans m m1 _ (set_whoami-Quietly ev.packet_id m)
              (Quietly-trans m1 m2 _ (stealth_removed-Quietly b m1) (drop_temporary-Quietly b' m2)))
            r k)
        r h

  hit_at-Quietly :
      (ev : Event T) (hit : Option ℕ) (m : DataManager T I)
      (r : DataManager T I × Option (StopMessage T))
      → hit_at ev hit m ≡ some r
      → Quietly m r.0
  unfolding hit_at
  hit_at-Quietly ev none m r h =
      some_keeps (λ r. Quietly m r.0) (m, none) (Reaches-refl m, refl) r h
  hit_at-Quietly ev (some i) m r h =
      bind_keeps (λ r. Quietly m r.0) (get_elem? m.breakpoint_list i)
        (λ b. if b.disabled then some (m, none) else stop_at ev i b m)
        (λ b r e k.
          if_keeps (λ r. Quietly m r.0) b.disabled (some (m, none)) (stop_at ev i b m)
            (some_keeps (λ r. Quietly m r.0) (m, none) (Reaches-refl m, refl))
            (stop_at-Quietly ev i b m) r k)
        r h

  pub check_breakpoint_hit-Quietly :
      (ev : Event T) (m : DataManager T I) (r : DataManager T I × Option (StopMessage T))
      → check_breakpoint_hit ev m ≡ some r
      → Quietly m r.0
  unfolding check_breakpoint_hit
  check_breakpoint_hit-Quietly ev m r h =
      bind_keeps (λ r. Quietly m r.0) (find_hit ev m.breakpoint_list) (λ hit. hit_at ev hit m)
        (λ hit r e k. hit_at-Quietly ev hit m r k) r h
