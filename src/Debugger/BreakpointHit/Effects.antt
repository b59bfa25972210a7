-- ===== src/Debugger/BreakpointHit/Effects.antt =====
-- What `checkBreakpointHit` does, where its pointer into the list of breakpoints stays good.
use pfpsim.Common.{
  ℕ, ◌≡◌, ◌⊎◌, Bool, true, false, none, some, List, ◌==◌, int_eq, if◌then◌else◌, minus_one,
  get_elem?, any, erase_first, take,
}
use pfpsim.Double.{Double}
use pfpsim.Debugger.Breakpoint.{Breakpoint}
use pfpsim.Debugger.DataManager.{DataManager}
use pfpsim.Debugger.BreakpointHit.{Event, hit_message, check_breakpoint_hit}
use pfpsim.Debugger.BreakpointHit.FirstMatch.{FirstMet}

abbrev pub is_stealth : Breakpoint → Bool
is_stealth b = b.id == minus_one

-- No stealth breakpoint stands before position `i`, unless the hit one is stealth itself.
abbrev pub KeepsPlace : ℕ → Breakpoint → List Breakpoint → Type 0
KeepsPlace i b bs = (is_stealth b ≡ true) ⊎ (any is_stealth (take i bs) ≡ false)

-- The list when the simulation has stopped at `b`: a stop that was asked for by the user takes one
-- pending stealth breakpoint away, and a temporary breakpoint goes with its hit.
pub list_after : Breakpoint → List Breakpoint → List Breakpoint
list_after b bs =
    let kept = if is_stealth b then bs else erase_first is_stealth bs in
    if b.temp then erase_first (λ x. x.id == b.id) kept else kept

module _ {T I : Type 0} ⦃d : Double T⦄ where
  -- The outcome of an event: no breakpoint matches and nothing happens, or the first that matches
  -- is at `i`, and its own flags decide.
  abbrev pub Outcome : Event T → DataManager T I → Type 0
  Outcome ev m =
      (FirstMet ev m.breakpoint_list none × (check_breakpoint_hit ev m ≡ some (m, none)))
      ⊎ ((i : ℕ) × (b : Breakpoint) × (get_elem? m.breakpoint_list i ≡ some b)
          × FirstMet ev m.breakpoint_list (some i)
          × (check_breakpoint_hit ev m
              ≡ some (
                  if b.disabled then (m, none) else (
                    record m {
                      current_packet_id = ev.packet_id;
                      breakpoint_list = list_after b m.breakpoint_list;
                    },
                    some (hit_message ev b),
                  ))))
