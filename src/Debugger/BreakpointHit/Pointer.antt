-- ===== src/Debugger/BreakpointHit/Pointer.antt =====
-- `hit_bkpt` is a pointer into a vector from which `removeBreakpoint(-1)` erases before it is read.
use pfpsim.Common.{
  ℕ, suc, ◌≡◌, true, false, none, some, arith, ◌==◌, int_eq, if◌then◌else◌, get_elem?, any,
  erase_first, take, get_elem?-erase_first_earlier,
}
use pfpsim.Double.{Double}
use pfpsim.Debugger.Breakpoint.{Breakpoint}
use pfpsim.Debugger.DataManager.{DataManager, set_whoami, remove_breakpoint}
use pfpsim.Debugger.BreakpointHit.{Event, find_hit, hit_message, check_breakpoint_hit}
use pfpsim.Debugger.BreakpointHit.Effects.{is_stealth}

module _ {T I : Type 0} ⦃d : Double T⦄ where
  -- When a user's breakpoint is hit while a stealth one stands before it, the flags that decide on
  -- removal are those of the next breakpoint: that one is removed if it is temporary, though it was
  -- not hit, and the hit one stays unless the identifiers agree. If the hit one was the last of the
  -- list, the code reads a destroyed entry.
  pub check_breakpoint_hit_misread :
      (ev : Event T) (m : DataManager T I) (i : ℕ) (b : Breakpoint)
      → find_hit ev m.breakpoint_list ≡ some (some i)
      → get_elem? m.breakpoint_list i ≡ some b
      → b.disabled ≡ false
      → is_stealth b ≡ false
      → any is_stealth (take i m.breakpoint_list) ≡ true
      → ((get_elem? m.breakpoint_list (suc i) ≡ none) → check_breakpoint_hit ev m ≡ none)
        × ((next : Breakpoint)
            → get_elem? m.breakpoint_list (suc i) ≡ some next
            → check_breakpoint_hit ev m
              ≡ some (
                record m {
                  current_packet_id = ev.packet_id;
                  breakpoint_list =
                      if next.temp
                      then erase_first
                          (λ x. x.id == next.id)
                          (erase_first is_stealth m.breakpoint_list)
                      else erase_first is_stealth m.breakpoint_list;
                },
                some (hit_message ev b),
              ))
  unfolding check_breakpoint_hit set_whoami remove_breakpoint
  check_breakpoint_hit_misread ev m i b hit at enabled user earlier = (
    λ e. ground (arith, get_elem?-erase_first_earlier is_stealth m.breakpoint_list i earlier),
    λ next e. ground (arith, get_elem?-erase_first_earlier is_stealth m.breakpoint_list i earlier),
  )
