-- ===== src/Debugger/Server/Asked.antt =====
-- DebuggerIPCServer.cpp: what each request asks of the data manager and of the rest of the server, said
-- without the handlers.
use pfpsim.Common.{
  ℕ, suc, ◌≡◌, Bool, true, false, ◌||◌, Option, none, some, List, [], ◌∷◌, String, ◌==◌, string_eq,
  if◌then◌else◌, ℤ, pos, minus_one,
}
use pfpsim.Double.{Double, unset}
use pfpsim.Decimal.{to_string}
use pfpsim.OrderedMap.{find}
use pfpsim.Debugger.Breakpoint.{
  Condition, break_at_time, break_on_packet_id, condition_eq, Breakpoint,
}
use pfpsim.Debugger.DataManager.{DataManager}
use pfpsim.Debugger.CpInterface.{TableEntries}
use pfpsim.Debugger.DataManager.Operations.{
  Operation, traces_counter, traces_latency, traces_throughput, adds_breakpoint, removes_breakpoint,
  enables_breakpoint, disables_breakpoint, adds_watchpoint, removes_watchpoint, enables_watchpoint,
  disables_watchpoint, ignores, notices_again, breaks_on_drop, run,
}
use pfpsim.Debugger.Server.{
  Services, latency, throughput, counter, Request, run_request, set_breakpoint, continue_request,
  remove_breakpoint_request, next, set_watchpoint, remove_watchpoint_request,
  enable_disable_breakpoint, enable_disable_watchpoint, ignore_module, break_on_packet_drop,
  cp_command, start_tracing, Server,
}

-- The first value that is given for a condition.
abbrev pub given : Condition → List Condition → List String → Option String
given c (x ∷ conditions) (value ∷ values) = if c == x then some value else given c conditions values
given c _ _ = none

abbrev pub gives_time : List Condition → Bool
gives_time [] = false
gives_time (c ∷ conditions) = if c == break_at_time then true else gives_time conditions

-- The breakpoint that a request describes.
pub record Described (conditions : List Condition) (values : List String)
    (temporary disabled : String) (next_id : ℕ) (br : Breakpoint) : Type 0 where
  pub has_conditions : (c : Condition) → find c br.conditions ≡ given c conditions values
  pub is_temporary : br.temp ≡ gives_time conditions || (temporary == "1")
  pub is_disabled : br.disabled ≡ (disabled == "1")
  pub is_next : br.id ≡ pos next_id

-- A temporary breakpoint of the server's own.
abbrev pub stealth_on : Condition → String → Breakpoint
stealth_on c value = record {
  conditions = (c, value) ∷ [];
  temp = true;
  disabled = false;
  id = minus_one;
}

module _ {T I : Type 0} ⦃d : Double T⦄ where
  -- A run until some time after now, where -1 is no time.
  abbrev pub until_operations : T → DataManager T I → List (Operation T I)
  until_operations t m =
      if d.same t unset
      then []
      else adds_breakpoint (stealth_on break_at_time (d.print (d.plus m.simulation_time t))) ∷ []

module _ {T I : Type 0} ⦃d : Double T⦄ (services : Services T I) where
  abbrev pub AsksUntil : Option String → DataManager T I → List (Operation T I) → Type 0
  AsksUntil none m os = os ≡ []
  AsksUntil (some text) m os = (t : T) × (services.stod text ≡ some t) × (os ≡ until_operations t m)

  abbrev pub AsksNumber : String → (ℤ → Operation T I) → List (Operation T I) → Type 0
  AsksNumber text o os = (id : ℤ) × (services.stoi text ≡ some id) × (os ≡ o id ∷ [])

  -- The operations of the data manager that a request asks for. All others only ask for an answer.
  abbrev pub Asks : Request → Server T I → List (Operation T I) → Type 0
  Asks (run_request time) s os = if s.run_called then (os ≡ []) else AsksUntil time s.manager os
  Asks (continue_request time) s os = AsksUntil time s.manager os
  Asks next s os =
      os
      ≡ adds_breakpoint (stealth_on break_on_packet_id (to_string s.manager.current_packet_id)) ∷ []
  Asks (set_breakpoint conditions values temporary disabled) s os =
      (br : Breakpoint) × Described conditions values temporary disabled s.next_breakpoint br
      × (os ≡ adds_breakpoint br ∷ [])
  Asks (remove_breakpoint_request text) s os = AsksNumber text removes_breakpoint os
  Asks (enable_disable_breakpoint text enable) s os =
      AsksNumber text (if enable == "0" then disables_breakpoint else enables_breakpoint) os
  Asks (set_watchpoint counter_name disabled) s os =
      os
      ≡ adds_watchpoint (record {
        disabled = disabled == "1";
        id = pos s.next_watchpoint;
        counter_name = counter_name;
      })
        ∷ []
  Asks (remove_watchpoint_request text) s os = AsksNumber text removes_watchpoint os
  Asks (enable_disable_watchpoint text enable) s os =
      AsksNumber text (if enable == "0" then disables_watchpoint else enables_watchpoint) os
  Asks (ignore_module name true) s os = os ≡ notices_again name ∷ []
  Asks (ignore_module name false) s os = os ≡ ignores name ∷ []
  Asks (break_on_packet_drop on) s os = os ≡ breaks_on_drop on ∷ []
  Asks (start_tracing counter name end_name) s os = os ≡ traces_counter name ∷ []
  Asks (start_tracing latency name end_name) s os = os ≡ traces_latency name end_name ∷ []
  Asks (start_tracing throughput name end_name) s os = os ≡ traces_throughput name ∷ []
  Asks _ s os = os ≡ []

  abbrev is_run : Request → Bool
  is_run (run_request time) = true
  is_run _ = false

  abbrev breakpoints_after : Request → ℕ → ℕ
  breakpoints_after (set_breakpoint conditions values temporary disabled) n = suc n
  breakpoints_after _ n = n

  abbrev watchpoints_after : Request → ℕ → ℕ
  watchpoints_after (set_watchpoint counter_name disabled) n = suc n
  watchpoints_after _ n = n

  abbrev commanded : String → Option TableEntries → Option TableEntries
  commanded command none = none
  commanded command (some entries) = some (services.do_command command entries)

  abbrev entries_after : Request → Option TableEntries → Option TableEntries
  entries_after (cp_command command) entries = commanded command entries
  entries_after _ entries = entries

  -- The rest of the server after a request.
  abbrev pub Rests : Request → Server T I → Server T I → Type 0
  Rests rq s s' =
      (s'.run_called ≡ is_run rq || s.run_called)
      × (s'.next_breakpoint ≡ breakpoints_after rq s.next_breakpoint)
      × (s'.next_watchpoint ≡ watchpoints_after rq s.next_watchpoint)
      × (s'.control_plane ≡ entries_after rq s.control_plane)

  -- The operations that the request asks for lead to the data manager after it.
  abbrev pub Serves : Request → Server T I → Server T I → Type 0
  Serves rq s s' =
      (os : List (Operation T I)) × Asks rq s os × (run os s.manager ≡ s'.manager) × Rests rq s s'
