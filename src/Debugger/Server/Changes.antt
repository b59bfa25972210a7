-- ===== src/Debugger/Server/Changes.antt =====
-- DebuggerIPCServer.cpp: the handlers change the data manager as the requests ask.
use pfpsim.Common.{
  ◌>>=◌, suc, bind_keeps, some_keeps, ◌≡◌, refl, sym, ap, ◌∙◌, subst, Bool, true, false, Option,
  none, some, List, [], ◌∷◌, String, ◌==◌, string_eq, if◌then◌else◌, ℤ, Bool-cases, inl, inr,
}
use pfpsim.Double.{Double, unset}
use pfpsim.OrderedMap.{find, assign, insert}
use pfpsim.Debugger.Breakpoint.{
  Condition, condition_eq, condition_order, Breakpoint, new, add_condition,
}
use pfpsim.Debugger.Watchpoint.{new as new_watchpoint}
use pfpsim.Debugger.DataManager.{DataManager, add_breakpoint, whoami}
use pfpsim.Debugger.DataManager.Operations.{
  Operation, adds_breakpoint, removes_breakpoint, enables_breakpoint, disables_breakpoint,
  removes_watchpoint, enables_watchpoint, disables_watchpoint, apply, run,
}
use pfpsim.Debugger.DataManager.Points.{IsIrredundant, run-IsIrredundant}
use pfpsim.Debugger.Server.{
  Services, succeeded, simulation_end, replied, latency, throughput, counter, Request, run_request,
  set_breakpoint, continue_request, remove_breakpoint_request, next, get_packet_list,
  set_watchpoint, remove_watchpoint_request, backtrace, enable_disable_breakpoint,
  enable_disable_watchpoint, ignore_module, cp_command, get_table_entries, break_on_packet_drop,
  start_tracing, Server, Answer, done, resumed, with_conditions, handle_set_breakpoint,
}
use pfpsim.Debugger.Server.Conditions.{with_conditions-IsAdded}
use pfpsim.Debugger.Server.Asked.{until_operations, AsksUntil, AsksNumber, Asks, Rests, Serves}
use pfpsim.Debugger.Server.Handlers.{
  handle_set_watchpoint, enable_disable, handle_ignore_module, handle_packet_info, until,
  handle_continue, handle_next, handle_backtrace, handle_start_tracing, parse_request,
}

module _ {T I : Type 0} ⦃d : Double T⦄ (services : Services T I) where
  answered-Serves :
      (rq : Request) (s : Server T I) (answer a : Answer T I) (os : List (Operation T I))
      → Asks services rq s os
      → run os s.manager ≡ answer.server.manager
      → Rests services rq s answer.server
      → some answer ≡ some a
      → Serves services rq s a.server
  answered-Serves rq s answer a os asks ran rests h =
      some_keeps (λ a. Serves services rq s a.server) answer (os, asks, ran, rests) a h

  until-run : (t : T) (m : DataManager T I) → run (until_operations t m) m ≡ until t m
  unfolding until run apply new add_condition insert find assign
  until-run t m = elim (Bool-cases (d.same t unset)) [
    | inl h ↦ rw (until, h) refl
    | inr h ↦ rw (until, h) refl
  ]

  continue-Serves :
      (rq : Request) (time : Option String) (s s' : Server T I) (a : Answer T I)
      → ((os : List (Operation T I))
          → AsksUntil services time s'.manager os
          → Asks services rq s os)
      → (s'.manager ≡ s.manager)
      → ((m : DataManager T I) → Rests services rq s (record s' { manager = m }))
      → handle_continue services time s' ≡ some a
      → Serves services rq s a.server
  unfolding handle_continue run
  continue-Serves rq none s s' a asks same rests h =
      answered-Serves rq s _ a [] (asks [] refl) (sym same) (rests s'.manager) h
  continue-Serves rq (some time) s s' a asks same rests h =
      bind_keeps (λ a. Serves services rq s a.server) (services.stod time)
        (λ t. resumed (record s' { manager = until t s'.manager }))
        (λ t a e k.
          some_keeps (λ a. Serves services rq s a.server) _
            (
              until_operations t s'.manager,
              asks (until_operations t s'.manager) (t, e, refl),
              ap (run (until_operations t s'.manager)) (sym same) ∙ until-run t s'.manager,
              rests (until t s'.manager),
            )
            a k)
        a h

  -- A request that reads a number and then has an operation done.
  number-Serves :
      (rq : Request) (text : String) (o : ℤ → Operation T I) (s : Server T I) (a : Answer T I)
      → ((os : List (Operation T I)) → AsksNumber services text o os → Asks services rq s os)
      → ((m : DataManager T I) → Rests services rq s (record s { manager = m }))
      → (do id ← services.stoi text; done (apply (o id)) s) ≡ some a
      → Serves services rq s a.server
  unfolding run
  number-Serves rq text o s a asks rests h =
      bind_keeps (λ a. Serves services rq s a.server) (services.stoi text)
        (λ id. done (apply (o id)) s)
        (λ id a e k.
          some_keeps (λ a. Serves services rq s a.server) _
            (o id ∷ [], asks (o id ∷ []) (id, e, refl), refl, rests (apply (o id) s.manager)) a k)
        a h

  switched-Serves :
      (rq : Request) (text : String) (on : Bool) (f g : ℤ → Operation T I) (s : Server T I)
      (a : Answer T I)
      → ((os : List (Operation T I))
          → AsksNumber services text (if on then f else g) os
          → Asks services rq s os)
      → ((m : DataManager T I) → Rests services rq s (record s { manager = m }))
      → (do id ← services.stoi text; done (if on then apply (f id) else apply (g id)) s) ≡ some a
      → Serves services rq s a.server
  switched-Serves rq text true f g s a asks rests h = number-Serves rq text f s a asks rests h
  switched-Serves rq text false f g s a asks rests h = number-Serves rq text g s a asks rests h

  run-Serves :
      (b : Bool) (time : Option String) (s : Server T I) (a : Answer T I)
      → s.run_called ≡ b
      → (if b
          then some (record { server = s; replies = simulation_end ∷ []; waits = false })
          else handle_continue services time (record s { run_called = true }))
        ≡ some a
      → Serves services (run_request time) s a.server
  unfolding run
  run-Serves true time s a e h =
      answered-Serves (run_request time) s _ a [] (rw e refl) refl (e, refl, refl, refl) h
  run-Serves false time s a e h =
      continue-Serves (run_request time) time s (record s { run_called = true }) a
        (λ os asked. rw e asked) refl (λ m. (refl, refl, refl, refl)) h

  set_breakpoint-Serves :
      (conditions : List Condition) (values : List String) (temporary disabled : String)
      (s : Server T I) (a : Answer T I)
      → handle_set_breakpoint conditions values temporary disabled s ≡ some a
      → Serves services (set_breakpoint conditions values temporary disabled) s a.server
  unfolding handle_set_breakpoint new run apply find
  set_breakpoint-Serves conditions values temporary disabled s a h =
      let rq = set_breakpoint conditions values temporary disabled in
      let asked : Breakpoint = record (new false s.next_breakpoint).0 {
        temp = temporary == "1";
        disabled = disabled == "1";
      } in
      bind_keeps (λ a. Serves services rq s a.server) (with_conditions conditions values asked)
        (λ br. replied succeeded (record s {
          manager = add_breakpoint br s.manager;
          next_breakpoint = suc s.next_breakpoint;
        }))
        (λ br a e k.
          let (all, temp, dis, id) = with_conditions-IsAdded conditions values asked br e in
          some_keeps (λ a. Serves services rq s a.server) _
            (
              adds_breakpoint br ∷ [],
              (
                br,
                record {
                  has_conditions = all;
                  is_temporary = temp;
                  is_disabled = dis;
                  is_next = id;
                },
                refl,
              ),
              refl,
              (refl, refl, refl, refl),
            )
            a k)
        a h

  -- Whatever is requested, if the request has a result, the operations that it asks for lead to the data
  -- manager after it, and the rest of the server is as the request says.
  pub parse_request-Serves :
      (rq : Request) (s : Server T I) (a : Answer T I)
      → parse_request services rq s ≡ some a
      → Serves services rq s a.server
  unfolding parse_request handle_set_watchpoint new_watchpoint enable_disable handle_ignore_module
      handle_packet_info handle_next handle_backtrace handle_start_tracing whoami new add_condition
      insert find assign run apply
  parse_request-Serves (run_request time) s a h = run-Serves s.run_called time s a refl h
  parse_request-Serves (set_breakpoint conditions values temporary disabled) s a h =
      set_breakpoint-Serves conditions values temporary disabled s a h
  parse_request-Serves (continue_request time) s a h =
      continue-Serves (continue_request time) time s s a (λ os asked. asked) refl
        (λ m. (refl, refl, refl, refl)) h
  parse_request-Serves (remove_breakpoint_request text) s a h =
      number-Serves (remove_breakpoint_request text) text removes_breakpoint s a (λ os asked. asked)
        (λ m. (refl, refl, refl, refl)) h
  parse_request-Serves (remove_watchpoint_request text) s a h =
      number-Serves (remove_watchpoint_request text) text removes_watchpoint s a (λ os asked. asked)
        (λ m. (refl, refl, refl, refl)) h
  parse_request-Serves (enable_disable_breakpoint text enable) s a h =
      switched-Serves (enable_disable_breakpoint text enable) text (enable == "0")
        disables_breakpoint enables_breakpoint s a (λ os asked. asked)
        (λ m. (refl, refl, refl, refl)) h
  parse_request-Serves (enable_disable_watchpoint text enable) s a h =
      switched-Serves (enable_disable_watchpoint text enable) text (enable == "0")
        disables_watchpoint enables_watchpoint s a (λ os asked. asked)
        (λ m. (refl, refl, refl, refl)) h
  parse_request-Serves next s a h =
      answered-Serves next s _ a (_ ∷ []) refl refl (refl, refl, refl, refl) h
  parse_request-Serves (get_packet_list none) s a h =
      answered-Serves (get_packet_list none) s _ a [] refl refl (refl, refl, refl, refl) h
  parse_request-Serves (get_packet_list (some name)) s a h =
      answered-Serves (get_packet_list (some name)) s _ a [] refl refl (refl, refl, refl, refl) h
  parse_request-Serves (set_watchpoint counter_name disabled) s a h =
      answered-Serves (set_watchpoint counter_name disabled) s _ a (_ ∷ []) refl refl
        (refl, refl, refl, refl) h
  parse_request-Serves (backtrace none) s a h =
      answered-Serves (backtrace none) s _ a [] refl refl (refl, refl, refl, refl) h
  parse_request-Serves (backtrace (some text)) s a h =
      bind_keeps (λ a. Serves services (backtrace (some text)) s a.server) (services.stoi text) _
        (λ id a e k.
          answered-Serves (backtrace (some text)) s _ a [] refl refl (refl, refl, refl, refl) k)
        a h
  parse_request-Serves (cp_command command) s a h =
      bind_keeps (λ a. Serves services (cp_command command) s a.server) s.control_plane _
        (λ entries a e k.
          answered-Serves (cp_command command) s _ a [] refl refl (refl, refl, refl, rw e refl) k)
        a h
  parse_request-Serves get_table_entries s a h =
      bind_keeps (λ a. Serves services get_table_entries s a.server) s.control_plane _
        (λ entries a e k.
          answered-Serves get_table_entries s _ a [] refl refl (refl, refl, refl, refl) k)
        a h
  parse_request-Serves (ignore_module name true) s a h =
      answered-Serves (ignore_module name true) s _ a (_ ∷ []) refl refl (refl, refl, refl, refl) h
  parse_request-Serves (ignore_module name false) s a h =
      answered-Serves (ignore_module name false) s _ a (_ ∷ []) refl refl (refl, refl, refl, refl) h
  parse_request-Serves (break_on_packet_drop on) s a h =
      answered-Serves (break_on_packet_drop on) s _ a (_ ∷ []) refl refl (refl, refl, refl, refl) h
  parse_request-Serves (start_tracing latency name end_name) s a h =
      answered-Serves (start_tracing latency name end_name) s _ a (_ ∷ []) refl refl
        (refl, refl, refl, refl) h
  parse_request-Serves (start_tracing throughput name end_name) s a h =
      answered-Serves (start_tracing throughput name end_name) s _ a (_ ∷ []) refl refl
        (refl, refl, refl, refl) h
  parse_request-Serves (start_tracing counter name end_name) s a h =
      answered-Serves (start_tracing counter name end_name) s _ a (_ ∷ []) refl refl
        (refl, refl, refl, refl) h
  parse_request-Serves rq s a h = answered-Serves rq s _ a [] refl refl (refl, refl, refl, refl) h

  -- So the lists stay irredundant.
  pub parse_request-IsIrredundant :
      (rq : Request) (s : Server T I) (a : Answer T I)
      → IsIrredundant s.manager
      → parse_request services rq s ≡ some a
      → IsIrredundant a.server.manager
  parse_request-IsIrredundant rq s a v h =
      let (os, asked, e, rests) = parse_request-Serves rq s a h in
      subst IsIrredundant e (run-IsIrredundant os s.manager v)
