-- ===== src/Debugger/Wire/ReadBack.antt =====
-- DebuggerMessages.cpp: a client reads every reply and every stop back from its message.
use pfpsim.Common.{
  ◌>>=◌, ℕ, ◌≡◌, refl, ap, ◌∙◌, Option, none, some, map, if◌then◌else◌, ◌==◌, string_eq, nat_eq,
}
use pfpsim.Debugger.Message.{
  StopMessage, breakpoint_hit, simulation_stopped, watchpoint_hit, packet_dropped,
}
use pfpsim.Debugger.Server.{
  Reply, succeeded, failed, counter_value_reply, all_counter_values, all_breakpoint_values,
  who_am_i_reply, packet_list_values, all_watchpoint_values, backtrace_reply, packet_field_value,
  raw_packet_value, parsed_packet_value, all_ignore_modules, simulation_time_value, dropped_packets,
  table_entries, start_tracing_status,
}
use pfpsim.Debugger.Wire.{
  Content, counter_value_msg, all_counter_values_msg, breakpoint_hit_msg, generic_acknowledge_msg,
  all_breakpoint_values_msg, who_am_i_reply_msg, packet_list_values_msg, watchpoint_hit_msg,
  all_watchpoint_values_msg, backtrace_reply_msg, simulation_end_msg, simulation_stopped_msg,
  all_ignore_modules_msg, simulation_time_msg, packet_dropped_msg, dropped_packets_msg,
  table_entries_msg, packet_field_value_msg, raw_packet_value_msg, parsed_packet_value_msg,
  start_tracing_status_msg, DebugMsg, reply_content, stop_content, debugger_message,
}
use pfpsim.Debugger.Wire.Fields.{
  zip, zip-map, is_set, is_set-flag, read_breakpoints, read_breakpoints-map, read_watchpoints,
  read_watchpoints-map, read_locations, read_locations-map, read_packets, read_packets-map,
  read_drops, read_drops-map, entry_of, read_entries-map,
}

-- The type that a message of each class belongs to.
abbrev pub type_of : {T : Type 0} → Content T → ℕ
type_of (counter_value_msg n v) = 5
type_of (all_counter_values_msg ns vs) = 6
type_of (breakpoint_hit_msg id m p t r) = 8
type_of (generic_acknowledge_msg s) = 10
type_of (all_breakpoint_values_msg ids cs ts ds) = 12
type_of (who_am_i_reply_msg id) = 15
type_of (packet_list_values_msg ids ls ts) = 17
type_of (watchpoint_hit_msg id n o v) = 18
type_of (all_watchpoint_values_msg ids ns ds) = 21
type_of (backtrace_reply_msg id ms rs ws) = 24
type_of simulation_end_msg = 25
type_of (simulation_stopped_msg m p t r) = 28
type_of (all_ignore_modules_msg ms) = 31
type_of (simulation_time_msg t) = 33
type_of (packet_dropped_msg id m r) = 35
type_of (dropped_packets_msg ids ms rs) = 37
type_of (table_entries_msg es) = 42
type_of (parsed_packet_value_msg hs) = 44
type_of (raw_packet_value_msg bs) = 46
type_of (packet_field_value_msg bs) = 48
type_of (start_tracing_status_msg id) = 50

-- What protobuf promises: a text is parsed back as a message of the class that made it.
pub record Protobuf (T B : Type 0) : Type 0 where
  pub serialize : Content T → B
  pub parse : ℕ → B → Option (Content T)
  pub parse-serialize : (c : Content T) → parse (type_of c) (serialize c) ≡ some c

module _ {T : Type 0} where
  -- The reply that a message stands for; one of a stop is none.
  reply_of : Content T → Option (Reply T)
  unfolding zip read_breakpoints read_packets read_watchpoints read_locations read_drops entry_of
  reply_of (generic_acknowledge_msg s) = some (if s == 1 then succeeded else failed)
  reply_of simulation_end_msg = some Reply.simulation_end
  reply_of (counter_value_msg name value) = some (counter_value_reply name value)
  reply_of (all_counter_values_msg ns vs) = some (all_counter_values (zip ns vs))
  reply_of (all_breakpoint_values_msg ids cs ts ds) =
      some (all_breakpoint_values (read_breakpoints ids cs ts ds))
  reply_of (who_am_i_reply_msg id) = some (who_am_i_reply id)
  reply_of (packet_list_values_msg ids ls ts) = some (packet_list_values (read_packets ids ls ts))
  reply_of (all_watchpoint_values_msg ids ns ds) =
      some (all_watchpoint_values (read_watchpoints ids ns ds))
  reply_of (backtrace_reply_msg id ms rs ws) = some (backtrace_reply id (read_locations ms rs ws))
  reply_of (packet_field_value_msg bytes) = some (packet_field_value bytes)
  reply_of (raw_packet_value_msg bytes) = some (raw_packet_value bytes)
  reply_of (parsed_packet_value_msg headers) = some (parsed_packet_value headers)
  reply_of (all_ignore_modules_msg ms) = some (all_ignore_modules ms)
  reply_of (simulation_time_msg time) = some (simulation_time_value time)
  reply_of (dropped_packets_msg ids ms rs) = some (dropped_packets (read_drops ids ms rs))
  reply_of (table_entries_msg es) = some (table_entries (map entry_of es))
  reply_of (start_tracing_status_msg id) = some (start_tracing_status id)
  reply_of _ = none

  stop_of : Content T → Option (StopMessage T)
  unfolding is_set
  stop_of (breakpoint_hit_msg id name packet_id time read) =
      some (breakpoint_hit id name packet_id time (is_set read))
  stop_of (simulation_stopped_msg name packet_id time read) =
      some (simulation_stopped name packet_id time read)
  stop_of (watchpoint_hit_msg id name old_value new_value) =
      some (watchpoint_hit id name old_value new_value)
  stop_of (packet_dropped_msg id name reason) = some (packet_dropped id name reason)
  stop_of simulation_end_msg = some StopMessage.simulation_end
  stop_of _ = none

  reply_of-reply_content : (r : Reply T) → reply_of (reply_content r).1 ≡ some r
  unfolding reply_of reply_content
  reply_of-reply_content (all_counter_values m) = ap (λ m. some (all_counter_values m)) (zip-map m)
  reply_of-reply_content (all_breakpoint_values bs) =
      ap (λ bs. some (all_breakpoint_values bs)) (read_breakpoints-map bs)
  reply_of-reply_content (packet_list_values ps) =
      ap (λ ps. some (packet_list_values ps)) (read_packets-map ps)
  reply_of-reply_content (all_watchpoint_values ws) =
      ap (λ ws. some (all_watchpoint_values ws)) (read_watchpoints-map ws)
  reply_of-reply_content (backtrace_reply id ls) =
      ap (λ ls. some (backtrace_reply id ls)) (read_locations-map ls)
  reply_of-reply_content (dropped_packets ps) =
      ap (λ ps. some (dropped_packets ps)) (read_drops-map ps)
  reply_of-reply_content (table_entries es) =
      ap (λ es. some (table_entries es)) (read_entries-map es)
  reply_of-reply_content _ = refl

  stop_of-stop_content : (m : StopMessage T) → stop_of (stop_content m).1 ≡ some m
  unfolding stop_of stop_content
  stop_of-stop_content (breakpoint_hit id name packet_id time read) =
      ap (λ b. some (breakpoint_hit id name packet_id time b)) (is_set-flag read)
  stop_of-stop_content _ = refl

  -- Each class has the type that its messages are parsed as.
  type_of-reply_content : (r : Reply T) → (reply_content r).0 ≡ type_of (reply_content r).1
  unfolding reply_content
  type_of-reply_content succeeded = refl
  type_of-reply_content _ = refl

  type_of-stop_content : (m : StopMessage T) → (stop_content m).0 ≡ type_of (stop_content m).1
  unfolding stop_content
  type_of-stop_content (packet_dropped id name reason) = refl
  type_of-stop_content _ = refl

  module _ {B : Type 0} (pb : Protobuf T B) where
    -- What a client makes of a message.
    pub read_reply : DebugMsg B → Option (Reply T)
    unfolding reply_of
    read_reply m = pb.parse m.type_number m.message >>= reply_of

    pub read_stop : DebugMsg B → Option (StopMessage T)
    unfolding stop_of
    read_stop m = pb.parse m.type_number m.message >>= stop_of

    parse_message :
        (c : ℕ × Content T)
        → c.0 ≡ type_of c.1
        → pb.parse
            (debugger_message pb.serialize c).type_number
            (debugger_message pb.serialize c).message
          ≡ some c.1
    unfolding debugger_message
    parse_message (n, c) h = ap (λ n. pb.parse n (pb.serialize c)) h ∙ pb.parse-serialize c

    -- For an encoding that is parsed back, a client reads every reply and every message of a stop back from
    -- the message that is made of it, with all that is in it.
    pub read_messages :
        (r : Reply T) (m : StopMessage T)
        → (read_reply (debugger_message pb.serialize (reply_content r)) ≡ some r)
          × (read_stop (debugger_message pb.serialize (stop_content m)) ≡ some m)
    unfolding read_reply read_stop
    read_messages r m = (
      ap (λ o. o >>= reply_of) (parse_message (reply_content r) (type_of-reply_content r))
          ∙ reply_of-reply_content r,
      ap (λ o. o >>= stop_of) (parse_message (stop_content m) (type_of-stop_content m))
          ∙ stop_of-stop_content m,
    )
