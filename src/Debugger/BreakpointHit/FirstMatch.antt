-- ===== src/Debugger/BreakpointHit/FirstMatch.antt =====
-- Which breakpoint the loops of `checkBreakpointHit` choose: the first that the event meets.
use pfpsim.Common.{
  ℕ, zero, suc, ◌+◌, ◌<◌, ◌≡◌, refl, ap, ◌∙◌, ◌⊎◌, inl, inr, true, false, Option, none, some, List,
  [], ◌∷◌, String, arith, ◌==◌, string_eq, int_eq, get_elem?, Bool-cases, subst,
}
use mathlib.Core.Option
use pfpsim.Double.{Double}
use pfpsim.Decimal.{to_string}
use pfpsim.OrderedMap.{Map}
use pfpsim.Debugger.Breakpoint.{
  Condition, break_on_module_read, break_on_module_write, break_at_time, break_on_packet_id,
  Breakpoint,
}
use pfpsim.Debugger.BreakpointHit.{
  Event, later_than, rules_out, scan_conditions, scan_breakpoints, find_hit,
}

module _ {T : Type 0} (d : Double T) where
  -- A time condition that is no number ends the run (`std::invalid_argument`).
  abbrev IsTime : Condition → String → Type 0
  IsTime break_at_time v = (time : T) × (d.parse v ≡ some time)
  IsTime break_on_module_read v = Unit {0}
  IsTime break_on_module_write v = Unit {0}
  IsTime break_on_packet_id v = Unit {0}

  abbrev pub IsReadable : Map Condition String → Type 0
  IsReadable [] = Unit {0}
  IsReadable ((c, v) ∷ rest) = IsTime c v × IsReadable rest

  abbrev pub AllReadable : List Breakpoint → Type 0
  AllReadable [] = Unit {0}
  AllReadable (b ∷ bs) = IsReadable b.conditions × AllReadable bs

module _ {T : Type 0} ⦃d : Double T⦄ where
  -- What each condition asks of an event. A packet is named by its identifier in decimal.
  abbrev pub Meets : Event T → Condition → String → Type 0
  Meets ev break_on_module_read v = (ev.read ≡ true) × (v ≡ ev.module_name)
  Meets ev break_on_module_write v = (ev.read ≡ false) × (v ≡ ev.module_name)
  Meets ev break_on_packet_id v = v ≡ to_string ev.packet_id
  Meets ev break_at_time v =
      (time : T) × (d.parse v ≡ some time) × (d.less ev.sim_time time ≡ false)

  abbrev pub AllMeet : Event T → Map Condition String → Type 0
  AllMeet ev [] = Unit {0}
  AllMeet ev ((c, v) ∷ rest) = Meets ev c v × AllMeet ev rest

  Verdict : Event T → Condition → String → Type 0
  Verdict ev c v =
      (Meets ev c v × (rules_out ev c v ≡ some false))
      ⊎ ((Meets ev c v → ⊥) × (rules_out ev c v ≡ some true))

  later_excludes :
      (ev : Event T) (v : String) (time t : T)
      → d.parse v ≡ some time
      → d.less ev.sim_time time ≡ true
      → d.parse v ≡ some t
      → d.less ev.sim_time t ≡ false
      → ⊥
  later_excludes ev v time t e later f g = ground arith

  rules_out-Meets : (ev : Event T) (c : Condition) (v : String) → IsTime d c v → Verdict ev c v
  unfolding Verdict rules_out
  rules_out-Meets ev break_on_module_read v h = elim (Bool-cases ev.read) [
    | inr no_read ↦ inr (λ m. ground arith, ground arith)
    | inl r ↦ elim (Bool-cases (v == ev.module_name)) [
      | inl same ↦ inl ((r, (string_eq.equal_iff v ev.module_name).0 same), ground arith)
      | inr other ↦ inr (λ m. ground (arith, string_eq.equal_iff v ev.module_name), ground arith)
    ]
  ]
  rules_out-Meets ev break_on_module_write v h = elim (Bool-cases ev.read) [
    | inl r ↦ inr (λ m. ground arith, ground arith)
    | inr no_read ↦ elim (Bool-cases (v == ev.module_name)) [
      | inl same ↦ inl ((no_read, (string_eq.equal_iff v ev.module_name).0 same), ground arith)
      | inr other ↦ inr (λ m. ground (arith, string_eq.equal_iff v ev.module_name), ground arith)
    ]
  ]
  rules_out-Meets ev break_on_packet_id v h = elim (Bool-cases (v == to_string ev.packet_id)) [
    | inl same ↦ inl ((string_eq.equal_iff v (to_string ev.packet_id)).0 same, ground arith)
    | inr other ↦
        inr (λ m. ground (arith, string_eq.equal_iff v (to_string ev.packet_id)), ground arith)
  ]
  rules_out-Meets ev break_at_time v (time, e) = elim (Bool-cases (d.less ev.sim_time time)) [
    | inl later ↦
        inr (λ m. later_excludes ev v time m.0 e later m.1 m.2, rw (e, later_than) (ap some later))
    | inr reached ↦ inl ((time, e, reached), rw (e, later_than) (ap some reached))
  ]

  Scans : Event T → Map Condition String → Type 0
  Scans ev cs =
      (AllMeet ev cs × (scan_conditions ev cs ≡ some true))
      ⊎ ((AllMeet ev cs → ⊥) × (scan_conditions ev cs ≡ some false))

  scan_conditions-AllMeet :
      (ev : Event T) (cs : Map Condition String) → IsReadable d cs → Scans ev cs
  unfolding Scans scan_conditions Verdict
  scan_conditions-AllMeet ev [] h = inl (tt, refl)
  scan_conditions-AllMeet ev ((c, v) ∷ rest) h = elim (rules_out-Meets ev c v h.0) [
    | inr (not_met, e) ↦ inr (λ a. not_met a.0, rw (e, scan_conditions))
    | inl (met, e) ↦ elim (scan_conditions-AllMeet ev rest h.1) [
      | inl (all, f) ↦ inl ((met, all), rw (e, scan_conditions) f)
      | inr (some_not, f) ↦ inr (λ a. some_not a.1, rw (e, scan_conditions) f)
    ]
  ]

  -- No breakpoint of the list before position `i` is met.
  abbrev pub NoneMet : Event T → ℕ → List Breakpoint → Type 0
  NoneMet ev i bs =
      (j : ℕ) (b : Breakpoint) → j < i → get_elem? bs j ≡ some b → AllMeet ev b.conditions → ⊥

  -- `bs` from its start: the first that is met, at a position, or none.
  abbrev pub FirstMet : Event T → List Breakpoint → Option ℕ → Type 0
  FirstMet ev bs none =
      (j : ℕ) (b : Breakpoint) → get_elem? bs j ≡ some b → AllMeet ev b.conditions → ⊥
  FirstMet ev bs (some i) =
      (b : Breakpoint) × (get_elem? bs i ≡ some b) × AllMeet ev b.conditions × NoneMet ev i bs

  FirstMet-cons :
      (ev : Event T) (b : Breakpoint) (bs : List Breakpoint) (r : Option ℕ)
      → (AllMeet ev b.conditions → ⊥)
      → FirstMet ev bs r
      → FirstMet ev (b ∷ bs) (Option.map suc r)
  FirstMet-cons ev b bs none miss f = skip
    where
      skip : (j : ℕ) (c : Breakpoint) → get_elem? (b ∷ bs) j ≡ some c → AllMeet ev c.conditions → ⊥
      skip zero c e a =
          let same : c ≡ b = ground arith in
          miss (subst (λ (x : Breakpoint). AllMeet ev x.conditions) same a)
      skip (suc j) c e a = f j c e a
  FirstMet-cons ev b bs (some i) miss (c, e, a, before) = (c, e, a, skip)
    where
      skip :
          (j : ℕ) (x : Breakpoint)
          → j < suc i
          → get_elem? (b ∷ bs) j ≡ some x
          → AllMeet ev x.conditions
          → ⊥
      skip zero x lt f m =
          let same : x ≡ b = ground arith in
          miss (subst (λ (y : Breakpoint). AllMeet ev y.conditions) same m)
      skip (suc j) x lt f m = before j x (omega arith) f m

  scan_from :
      (ev : Event T) (i : ℕ) (bs : List Breakpoint)
      → AllReadable d bs
      → (r : Option ℕ) × FirstMet ev bs r
        × (scan_breakpoints ev i bs ≡ some (Option.map (λ j. i + j) r))
  unfolding scan_breakpoints Scans
  scan_from ev i [] h = (none, λ j b e a. absurd (ground arith), refl)
  scan_from ev i (b ∷ bs) h = elim (scan_conditions-AllMeet ev b.conditions h.0) [
    | inl (met, e) ↦ (
      some 0,
      (b, refl, met, λ j c lt. absurd (omega arith)),
      rw (e, scan_breakpoints) (ap (λ k. some (some k)) (omega arith)),
    )
    | inr (miss, e) ↦
        let (r, first, f) = scan_from ev (suc i) bs h.1 in
        (
          Option.map suc r,
          FirstMet-cons ev b bs r miss first,
          rw (e, scan_breakpoints) (f ∙ shift i r),
        )
  ]
    where
      shift :
          (i : ℕ) (r : Option ℕ)
          → some (Option.map (λ j. suc i + j) r) ≡ some (Option.map (λ j. i + j) (Option.map suc r))
      shift i none = refl
      shift i (some j) = ap (λ k. some (some k)) (omega arith)

  -- The breakpoint that is found is the first of the list all of whose conditions the event meets,
  -- and none is found exactly when there is none such.
  pub find_hit-FirstMet :
      (ev : Event T) (bs : List Breakpoint)
      → AllReadable d bs
      → (r : Option ℕ) × FirstMet ev bs r × (find_hit ev bs ≡ some r)
  unfolding find_hit
  find_hit-FirstMet ev bs h =
      let (r, first, e) = scan_from ev 0 bs h in (r, first, e ∙ ap some (same r))
    where
      same : (r : Option ℕ) → Option.map (λ j. 0 + j) r ≡ r
      same none = refl
      same (some j) = ap some (omega arith)
