-- ===== src/Debugger/Server/Replies.antt =====
-- DebuggerIPCServer.cpp: how many replies a request gets.
use pfpsim.Common.{
  ◌>>=◌, ℕ, ◌+◌, ◌≤◌, ◌≡◌, List, [], ◌∷◌, arith, refl, Bool, true, false, Option, none, some,
  String, if◌then◌else◌, ℤ, length, is_some,
}
use pfpsim.Double.{Double}
use pfpsim.Debugger.Breakpoint.{Condition, Breakpoint}
use pfpsim.Debugger.DataManager.{get_packet}
use pfpsim.Debugger.Server.{
  Services, latency, throughput, counter, Request, run_request, continue_request,
  remove_breakpoint_request, get_packet_list, remove_watchpoint_request, backtrace,
  enable_disable_breakpoint, enable_disable_watchpoint, get_packet_field, get_raw_packet,
  get_parsed_packet, start_tracing, Reply, Server, Answer, set_breakpoint, cp_command,
  get_table_entries, with_conditions, handle_set_breakpoint,
}
use pfpsim.Debugger.Server.Handlers.{
  info_of, about, handle_set_watchpoint, enable_disable, handle_ignore_module, handle_packet_info,
  handle_continue, handle_next, handle_backtrace, handle_start_tracing, parse_request,
}

module _ {T I : Type 0} ⦃d : Double T⦄ (services : Services T I) where
  -- The numbers in the request can be read, each condition of a breakpoint has a value, and what is asked of
  -- the control plane is asked when one is registered.
  abbrev pub IsServable : Request → Server T I → Type 0
  IsServable (run_request (some time)) s = is_some (services.stod time) ≡ true
  IsServable (continue_request (some time)) s = is_some (services.stod time) ≡ true
  IsServable (remove_breakpoint_request id) s = is_some (services.stoi id) ≡ true
  IsServable (remove_watchpoint_request id) s = is_some (services.stoi id) ≡ true
  IsServable (backtrace (some id)) s = is_some (services.stoi id) ≡ true
  IsServable (enable_disable_breakpoint id enable) s = is_some (services.stoi id) ≡ true
  IsServable (enable_disable_watchpoint id enable) s = is_some (services.stoi id) ≡ true
  IsServable (set_breakpoint conditions values temporary disabled) s =
      length conditions ≤ length values
  IsServable (cp_command command) s = is_some s.control_plane ≡ true
  IsServable get_table_entries s = is_some s.control_plane ≡ true
  IsServable _ s = Unit {0}

  -- A packet is known with what its device says of it.
  abbrev pub has_info : ℤ → Server T I → Bool
  has_info id s = is_some (info_of (get_packet id s.manager))

  -- The requests that are answered twice.
  abbrev pub replies_twice : Request → Server T I → Bool
  replies_twice (get_packet_field id name) s = has_info id s
  replies_twice (get_raw_packet id) s = has_info id s
  replies_twice (get_parsed_packet id) s = has_info id s
  replies_twice (start_tracing type name end_name) s = true
  replies_twice _ s = false

  -- The replies at once and the one at the next stop.
  abbrev pub replies_of : Answer T I → ℕ
  replies_of a = length a.replies + (if a.waits then 1 else 0)

  abbrev pub Answers : Option (Answer T I) → ℕ → Type 0
  Answers o n = (a : Answer T I) × (o ≡ some a) × (replies_of a ≡ n)

  bind-Answers :
      {A : Type 0} (o : Option A) (f : A → Option (Answer T I)) (n : ℕ)
      → is_some o ≡ true
      → ((x : A) → Answers (f x) n)
      → Answers (o >>= f) n
  bind-Answers none f n h k = absurd cc
  bind-Answers (some x) f n h k = k x

  about-length :
      (f : I → Reply T) (o : Option I) → length (about f o) + 0 ≡ (if is_some o then 2 else 1)
  about-length f none = refl
  about-length f (some di) = refl

  continue-Answers :
      (time : Option String) (s : Server T I)
      → IsServable (continue_request time) s
      → Answers (handle_continue services time s) 1
  unfolding handle_continue
  continue-Answers none s h = (_, refl, refl)
  continue-Answers (some time) s h = bind-Answers (services.stod time) _ 1 h (λ t. (_, refl, refl))

  if-Answers :
      (b : Bool) (x y : Option (Answer T I)) (n : ℕ)
      → Answers x n
      → Answers y n
      → Answers (if b then x else y) n
  if-Answers true x y n f g = f
  if-Answers false x y n f g = g

  conditions_given :
      (conditions : List Condition) (values : List String) (br : Breakpoint)
      → length conditions ≤ length values
      → is_some (with_conditions conditions values br) ≡ true
  unfolding with_conditions
  conditions_given [] values br h = refl
  conditions_given (c ∷ conditions) [] br h = absurd (omega (arith, h))
  conditions_given (c ∷ conditions) (value ∷ values) br h =
      conditions_given conditions values _ (omega (arith, h))

  -- A request is answered where the numbers in it can be read, where a breakpoint's conditions each have a
  -- value, and where a control plane is registered if it is asked something. It gets one reply, at once or when the simulation
  -- stops, but for a question about a packet whose contents are known and for the start of a trace, which
  -- get two.
  pub parse_request_replies :
      (rq : Request) (s : Server T I)
      → IsServable rq s
      → Answers (parse_request services rq s) (if replies_twice rq s then 2 else 1)
  unfolding parse_request handle_set_breakpoint handle_set_watchpoint enable_disable
      handle_ignore_module handle_packet_info handle_next handle_backtrace handle_start_tracing
  parse_request_replies (run_request none) s h =
      if-Answers s.run_called _ _ 1 (_, refl, refl)
        (continue-Answers none (record s { run_called = true }) tt)
  parse_request_replies (run_request (some time)) s h =
      if-Answers s.run_called _ _ 1 (_, refl, refl)
        (continue-Answers (some time) (record s { run_called = true }) h)
  parse_request_replies (continue_request none) s h = continue-Answers none s tt
  parse_request_replies (continue_request (some time)) s h = continue-Answers (some time) s h
  parse_request_replies (remove_breakpoint_request id) s h =
      bind-Answers (services.stoi id) _ 1 h (λ t. (_, refl, refl))
  parse_request_replies (set_breakpoint conditions values temporary disabled) s h =
      bind-Answers (with_conditions conditions values _) _ 1
        (conditions_given conditions values _ h) (λ br. (_, refl, refl))
  parse_request_replies (cp_command command) s h =
      bind-Answers s.control_plane _ 1 h (λ entries. (_, refl, refl))
  parse_request_replies get_table_entries s h =
      bind-Answers s.control_plane _ 1 h (λ entries. (_, refl, refl))
  parse_request_replies (get_packet_list none) s h = (_, refl, refl)
  parse_request_replies (get_packet_list (some name)) s h = (_, refl, refl)
  parse_request_replies (remove_watchpoint_request id) s h =
      bind-Answers (services.stoi id) _ 1 h (λ t. (_, refl, refl))
  parse_request_replies (backtrace none) s h = (_, refl, refl)
  parse_request_replies (backtrace (some id)) s h =
      bind-Answers (services.stoi id) _ 1 h (λ t. (_, refl, refl))
  parse_request_replies (enable_disable_breakpoint id enable) s h =
      bind-Answers (services.stoi id) _ 1 h (λ t. (_, refl, refl))
  parse_request_replies (enable_disable_watchpoint id enable) s h =
      bind-Answers (services.stoi id) _ 1 h (λ t. (_, refl, refl))
  parse_request_replies (get_packet_field id field_name) s h =
      (_, refl, about-length _ (info_of (get_packet id s.manager)))
  parse_request_replies (get_raw_packet id) s h =
      (_, refl, about-length _ (info_of (get_packet id s.manager)))
  parse_request_replies (get_parsed_packet id) s h =
      (_, refl, about-length _ (info_of (get_packet id s.manager)))
  parse_request_replies (start_tracing latency name end_name) s h = (_, refl, refl)
  parse_request_replies (start_tracing throughput name end_name) s h = (_, refl, refl)
  parse_request_replies (start_tracing counter name end_name) s h = (_, refl, refl)
  parse_request_replies _ s h = (_, refl, refl)
