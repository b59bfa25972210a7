-- ===== src/Examples/Hits.antt =====
-- Breakpoints that are hit.
use pfpsim.Common.{
  ℕ, ◌≡◌, refl, true, false, List, [], ◌∷◌, String, ◌==◌, string_eq, int_eq, Option, none, some,
  if◌then◌else◌, ℤ, pos, negsuc, get_elem?, any, erase_first,
}
use pfpsim.Decimal.{to_string}
use pfpsim.Debugger.Breakpoint.{Breakpoint, break_on_packet_id, break_at_time}
use pfpsim.Debugger.DataManager.{DataManager, set_whoami, remove_breakpoint}
use pfpsim.Debugger.Message.{breakpoint_hit}
use pfpsim.Debugger.BreakpointHit.{
  Event, rules_out, scan_conditions, scan_breakpoints, find_hit, hit_message, check_breakpoint_hit,
}
use pfpsim.Debugger.BreakpointHit.FirstMatch.{FirstMet, find_hit-FirstMet}
use pfpsim.Debugger.BreakpointHit.Effects.{is_stealth}
use pfpsim.Debugger.BreakpointHit.Pointer.{check_breakpoint_hit_misread}
use pfpsim.Examples.Times.{int_double}

-- A stealth breakpoint for a later time, one on packet 7, and a temporary one on packet 8.
abbrev later : Breakpoint
later = record {
  conditions = (break_at_time, "50") ∷ [];
  temp = true;
  disabled = false;
  id = negsuc 0;
}

abbrev on_seven : Breakpoint
on_seven = record {
  conditions = (break_on_packet_id, "7") ∷ [];
  temp = false;
  disabled = false;
  id = pos 0;
}

abbrev on_eight : Breakpoint
on_eight = record {
  conditions = (break_on_packet_id, "8") ∷ [];
  temp = true;
  disabled = false;
  id = pos 1;
}

abbrev with_breakpoints : List Breakpoint → DataManager ℤ String
with_breakpoints bs = record {
  counters = [];
  trace_id = 0;
  counter_traces = [];
  latency_read_triggers = [];
  latency_write_triggers = [];
  throughput_triggers = [];
  packet_list = [];
  breakpoint_list = bs;
  simulation_time = pos 0;
  current_packet_id = negsuc 0;
  watchpoint_list = [];
  next_watchpoint_id = 0;
  ignore_module_list = [];
  dropped_packet_list = [];
  break_packet_dropped = false;
}

abbrev seven_read : Event ℤ
seven_read = record { module_name = "parser"; packet_id = pos 7; sim_time = pos 5; read = true }

-- The persistent breakpoint that is hit stays, but the temporary one behind it is lost.
stealth_run :
    check_breakpoint_hit seven_read (with_breakpoints (later ∷ on_seven ∷ on_eight ∷ []))
    ≡ some (
      record (with_breakpoints (on_seven ∷ [])) { current_packet_id = pos 7 },
      some (breakpoint_hit (pos 0) "parser" (pos 7) (pos 5) true),
    )
unfolding check_breakpoint_hit find_hit scan_breakpoints scan_conditions rules_out to_string
    erase_first hit_message set_whoami remove_breakpoint
stealth_run = refl

check_breakpoint_hit_misread_example :
    ((get_elem? (later ∷ on_seven ∷ on_eight ∷ []) 2 ≡ none)
      → check_breakpoint_hit seven_read (with_breakpoints (later ∷ on_seven ∷ on_eight ∷ []))
        ≡ none)
    × ((next : Breakpoint)
        → get_elem? (later ∷ on_seven ∷ on_eight ∷ []) 2 ≡ some next
        → check_breakpoint_hit seven_read (with_breakpoints (later ∷ on_seven ∷ on_eight ∷ []))
          ≡ some (
            record (with_breakpoints (later ∷ on_seven ∷ on_eight ∷ [])) {
              current_packet_id = pos 7;
              breakpoint_list =
                  if next.temp
                  then erase_first
                      (λ x. x.id == next.id)
                      (erase_first is_stealth (later ∷ on_seven ∷ on_eight ∷ []))
                  else erase_first is_stealth (later ∷ on_seven ∷ on_eight ∷ []);
            },
            some (hit_message seven_read on_seven),
          ))
unfolding find_hit scan_breakpoints scan_conditions rules_out to_string any
check_breakpoint_hit_misread_example =
    check_breakpoint_hit_misread seven_read (with_breakpoints (later ∷ on_seven ∷ on_eight ∷ [])) 1
      on_seven refl refl refl refl refl

find_hit-FirstMet_example :
    (r : Option ℕ) × FirstMet seven_read (later ∷ on_seven ∷ []) r
    × (find_hit seven_read (later ∷ on_seven ∷ []) ≡ some r)
find_hit-FirstMet_example =
    find_hit-FirstMet seven_read (later ∷ on_seven ∷ []) (((pos 50, refl), tt), ((tt, tt), tt))
