-- ===== src/Debugger/BreakpointHit.antt =====
-- pfpsim/core/debugger/DebugObserver.cpp: `checkBreakpointHit`.
pub mod FirstMatch
pub mod Effects
pub mod Pointer
pub mod Runs
use pfpsim.Common.{
  ◌>>=◌, ℕ, suc, ◌≡◌, Bool, true, false, not, ◌&&◌, ◌||◌, Option, none, some, List, [], ◌∷◌, String,
  Equality, ◌==◌, string_eq, int_eq, if◌then◌else◌, ℤ, minus_one, get_elem?,
}
use pfpsim.Double.{Double}
use pfpsim.Decimal.{to_string}
use pfpsim.OrderedMap.{Map}
use pfpsim.Debugger.Breakpoint.{
  Condition, break_on_module_read, break_on_module_write, break_at_time, break_on_packet_id,
  Breakpoint,
}
use pfpsim.Debugger.DataManager.{DataManager, set_whoami, remove_breakpoint}
use pfpsim.Debugger.Message.{StopMessage, breakpoint_hit, simulation_stopped}

-- The arguments of `checkBreakpointHit`: a packet that a module reads or writes.
pub record Event (T : Type 0) : Type 0 where
  pub module_name : String
  pub packet_id : ℤ
  pub sim_time : T
  pub read : Bool

module _ {T : Type 0} ⦃d : Double T⦄ where
  later_than : Event T → Option T → Option Bool
  later_than ev none = none
  later_than ev (some time) = some (d.less ev.sim_time time)

  -- One condition of a breakpoint: does it rule the event out?
  unfoldable pub rules_out : Event T → Condition → String → Option Bool
  unfolding later_than
  rules_out ev break_on_module_read value = some (not ev.read || not (value == ev.module_name))
  rules_out ev break_on_module_write value = some (ev.read || not (value == ev.module_name))
  rules_out ev break_on_packet_id value = some (not (value == to_string ev.packet_id))
  rules_out ev break_at_time value = later_than ev (d.parse value)

  -- The loop over a breakpoint's conditions, up to the first that rules the event out.
  unfoldable pub scan_conditions : Event T → Map Condition String → Option Bool
  scan_conditions ev [] = some true
  scan_conditions ev ((c, value) ∷ rest) = elim (rules_out ev c value) [
    | none ↦ none
    | some true ↦ some false
    | some false ↦ scan_conditions ev rest
  ]

  -- The loop over the breakpoints: the position of the first one that is hit, from `i` on.
  unfoldable pub scan_breakpoints : Event T → ℕ → List Breakpoint → Option (Option ℕ)
  scan_breakpoints ev i [] = some none
  scan_breakpoints ev i (b ∷ rest) = elim (scan_conditions ev b.conditions) [
    | none ↦ none
    | some true ↦ some (some i)
    | some false ↦ scan_breakpoints ev (suc i) rest
  ]

  unfoldable pub find_hit : Event T → List Breakpoint → Option (Option ℕ)
  find_hit ev bs = scan_breakpoints ev 0 bs

  -- The reply, by the kind of breakpoint; a stealth one has the identifier -1.
  unfoldable pub hit_message : Event T → Breakpoint → StopMessage T
  hit_message ev b =
      if b.id == minus_one
      then simulation_stopped ev.module_name ev.packet_id ev.sim_time ev.read
      else breakpoint_hit b.id ev.module_name ev.packet_id ev.sim_time ev.read

module _ {T I : Type 0} ⦃d : Double T⦄ where
  -- What `hit_bkpt` points at once the list has changed: the entry that now stands at its place. Past
  -- the end of the vector the entry is destroyed.
  abbrev pointee : ℕ → DataManager T I → Option Breakpoint
  pointee i m = get_elem? m.breakpoint_list i

  drop_temporary : Breakpoint → DataManager T I → DataManager T I
  drop_temporary b m = if b.temp then remove_breakpoint b.id m else m

  -- A hit on the enabled breakpoint at position `i`.
  stop_at :
      Event T → ℕ → Breakpoint → DataManager T I → Option (DataManager T I × Option (StopMessage T))
  unfolding drop_temporary
  stop_at ev i b m = do
    let m1 = set_whoami ev.packet_id m
    let m2 = if b.id == minus_one then m1 else remove_breakpoint minus_one m1
    b' ← pointee i m2
    some (drop_temporary b' m2, some (hit_message ev b))

  hit_at : Event T → Option ℕ → DataManager T I → Option (DataManager T I × Option (StopMessage T))
  unfolding stop_at
  hit_at ev none m = some (m, none)
  hit_at ev (some i) m = do
    b ← get_elem? m.breakpoint_list i
    if b.disabled then some (m, none) else stop_at ev i b m

  -- The state in which the simulation pauses and the reply that the debugger gets, if it stops.
  unfoldable pub check_breakpoint_hit :
      Event T → DataManager T I → Option (DataManager T I × Option (StopMessage T))
  unfolding hit_at
  check_breakpoint_hit ev m = do hit ← find_hit ev m.breakpoint_list; hit_at ev hit m
