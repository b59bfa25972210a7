-- ===== src/Examples/Requests.antt =====
-- Requests to the server.
use pfpsim.Common.{
  ◌≡◌, refl, true, false, pos, any, none, some, [], ◌∷◌, String, ℤ, if◌then◌else◌, string_eq,
}
use pfpsim.OrderedMap.{find, assign, insert}
use pfpsim.Debugger.Breakpoint.{
  break_on_module_read, break_on_packet_id, condition_eq, condition_order, new, add_condition,
}
use pfpsim.Debugger.DataManager.{init, add_breakpoint}
use pfpsim.Debugger.Server.{
  Services, Request, run_request, set_breakpoint, cp_command, with_conditions,
  handle_set_breakpoint, Server, Answer, succeeded,
}
use pfpsim.Debugger.Server.Handlers.{parse_request}
use pfpsim.Debugger.Server.Replies.{Answers, replies_twice, parse_request_replies}
use pfpsim.Debugger.Server.Asked.{Serves}
use pfpsim.Debugger.Server.Changes.{parse_request-Serves}
use pfpsim.Examples.Times.{int_double, int_parse}

-- A device whose packets hold one byte, and a control plane that ignores commands.
abbrev device : Services ℤ String
device = record {
  stoi = int_parse;
  stod = int_parse;
  field_value = λ di name. 7 ∷ [];
  raw_data = λ di. 7 ∷ [];
  parsed_data = λ di. [];
  do_command = λ command entries. entries;
}

abbrev idle : Server ℤ String
idle = record {
  manager = init;
  next_breakpoint = 0;
  next_watchpoint = 0;
  run_called = false;
  control_plane = none;
}

-- A breakpoint for a packet in a module, of which a second value for the packet is not taken.
abbrev wanted : Request
wanted =
    set_breakpoint (break_on_packet_id ∷ break_on_module_read ∷ break_on_packet_id ∷ [])
      ("7" ∷ "parser" ∷ "8" ∷ []) "1" "0"

abbrev breaking : Answer ℤ String
breaking = record {
  server = record idle {
    manager = record init {
      breakpoint_list =
          record {
            conditions = (break_on_module_read, "parser") ∷ (break_on_packet_id, "7") ∷ [];
            temp = true;
            disabled = false;
            id = pos 0;
          }
          ∷ [];
    };
    next_breakpoint = 1;
  };
  replies = succeeded ∷ [];
  waits = false;
}

breaking_run : parse_request device wanted idle ≡ some breaking
unfolding parse_request handle_set_breakpoint with_conditions new add_condition insert assign find
    add_breakpoint any init
breaking_run = refl

parse_request-Serves_example : Serves device wanted idle breaking.server
parse_request-Serves_example = parse_request-Serves device wanted idle breaking breaking_run

-- Without a value for each condition, or without a control plane, there is no answer.
unvalued_run :
    parse_request device (set_breakpoint (break_on_packet_id ∷ []) [] "0" "0") idle ≡ none
unfolding parse_request handle_set_breakpoint with_conditions new
unvalued_run = refl

uncontrolled_run : parse_request device (cp_command "clear") idle ≡ none
unfolding parse_request
uncontrolled_run = refl

-- A run for 50 nanoseconds is answered once, when it stops.
parse_request_replies_example :
    Answers device
      (parse_request device (run_request (some "50")) idle)
      (if replies_twice device (run_request (some "50")) idle then 2 else 1)
parse_request_replies_example = parse_request_replies device (run_request (some "50")) idle refl
