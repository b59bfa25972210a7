-- ===== src/Examples/Messages.antt =====
-- Messages to a client.
use pfpsim.Common.{
  ℕ, ◌≡◌, refl, true, Option, none, some, [], ◌∷◌, ◌==◌, nat_eq, if◌then◌else◌, pos, beq_self,
}
use pfpsim.Debugger.Breakpoint.{break_at_time}
use pfpsim.Debugger.Message.{StopMessage, breakpoint_hit}
use pfpsim.Debugger.Server.{Reply, all_breakpoint_values}
use pfpsim.Debugger.Wire.{Content, reply_content, stop_content, debugger_message}
use pfpsim.Debugger.Wire.ReadBack.{type_of, Protobuf, read_reply, read_stop, read_messages}

-- An encoding whose texts are the messages themselves; one of another class cannot be parsed.
parse_content : ℕ → Content ℕ → Option (Content ℕ)
parse_content n c = if n == type_of c then some c else none

parse_content_self : (c : Content ℕ) → parse_content (type_of c) c ≡ some c
unfolding parse_content
parse_content_self c = rw (beq_self (type_of c)) refl

abbrev plain : Protobuf ℕ (Content ℕ)
plain = record { serialize = λ c. c; parse = parse_content; parse-serialize = parse_content_self }

abbrev breakpoints : Reply ℕ
breakpoints = all_breakpoint_values (
    record { conditions = (break_at_time, "1500") ∷ []; temp = true; disabled = true; id = pos 2 }
    ∷ [])

abbrev hit : StopMessage ℕ
hit = breakpoint_hit (pos 2) "parser" (pos 7) 1500 true

read_messages_example :
    (read_reply plain (debugger_message plain.serialize (reply_content breakpoints))
      ≡ some breakpoints)
    × (read_stop plain (debugger_message plain.serialize (stop_content hit)) ≡ some hit)
read_messages_example = read_messages plain breakpoints hit
