-- ===== src/Debugger/Wire.antt =====
-- pfpsim/core/debugger/DebuggerMessages.cpp: the messages of protobuf that are made of replies and of
-- stops. The encoding is a parameter. Numbers of types and of enumerations are those of
-- pfpsim/core/proto/PFPSimDebugger.proto.
pub mod Fields
pub mod ReadBack
use pfpsim.Common.{ℕ, Bool, true, false, List, [], ◌∷◌, String, map, ℤ, if◌then◌else◌}
use pfpsim.Debugger.Breakpoint.{
  Condition, break_on_module_read, break_on_module_write, break_at_time, break_on_packet_id,
  Breakpoint,
}
use pfpsim.Debugger.Watchpoint.{Watchpoint}
use pfpsim.Debugger.Packet.{PacketLocation}
use pfpsim.Debugger.DataManager.{DroppedPacket}
use pfpsim.Debugger.CpInterface.{
  TableEntry, TableEntryStatus, ok, inserting, deleting, modifying, no_status,
}
use pfpsim.Debugger.Message.{
  StopMessage, breakpoint_hit, simulation_stopped, watchpoint_hit, packet_dropped,
}
use pfpsim.Debugger.Server.{
  Reply, succeeded, failed, counter_value_reply, all_counter_values, all_breakpoint_values,
  who_am_i_reply, packet_list_values, all_watchpoint_values, backtrace_reply, packet_field_value,
  raw_packet_value, parsed_packet_value, all_ignore_modules, simulation_time_value, dropped_packets,
  table_entries, start_tracing_status,
}

-- An entry of a TableEntriesMsg, with the number of its status.
pub record EntryMsg : Type 0 where
  pub table_name : String
  pub match_key_list : List String
  pub action_name : String
  pub action_data_list : List String
  pub handle : ℕ
  pub status : ℕ

-- The messages of protobuf by their fields; repeated ones are lists.
pub data Content (T : Type 0) : Type 0 where
  counter_value_msg : String → ℤ → Content T
  all_counter_values_msg : List String → List ℤ → Content T
  breakpoint_hit_msg : ℤ → String → ℤ → T → String → Content T
  generic_acknowledge_msg : ℕ → Content T
  all_breakpoint_values_msg :
      List ℤ → List (List ℕ × List String) → List String → List String → Content T
  who_am_i_reply_msg : ℤ → Content T
  packet_list_values_msg : List ℤ → List String → List T → Content T
  watchpoint_hit_msg : ℤ → String → ℤ → ℤ → Content T
  all_watchpoint_values_msg : List ℤ → List String → List String → Content T
  backtrace_reply_msg : ℤ → List String → List T → List T → Content T
  simulation_end_msg : Content T
  simulation_stopped_msg : String → ℤ → T → Bool → Content T
  all_ignore_modules_msg : List String → Content T
  simulation_time_msg : T → Content T
  packet_dropped_msg : ℤ → String → String → Content T
  dropped_packets_msg : List ℤ → List String → List String → Content T
  table_entries_msg : List EntryMsg → Content T
  packet_field_value_msg : List ℕ → Content T
  raw_packet_value_msg : List ℕ → Content T
  parsed_packet_value_msg : List (String × List (String × List ℕ)) → Content T
  start_tracing_status_msg : ℤ → Content T

-- DebugMsg: the number of its type, and the text that the message in it is encoded as, of the type `B`.
pub record DebugMsg (B : Type 0) : Type 0 where
  pub type_number : ℕ
  pub message : B

abbrev pub flag : Bool → String
flag b = if b then "1" else "0"

unfoldable pub condition_number : Condition → ℕ
condition_number break_on_module_read = 1
condition_number break_on_module_write = 2
condition_number break_at_time = 3
condition_number break_on_packet_id = 4

unfoldable pub status_number : TableEntryStatus → ℕ
status_number ok = 1
status_number inserting = 2
status_number deleting = 3
status_number modifying = 4
status_number no_status = 5

abbrev pub conditions_msg : Breakpoint → List ℕ × List String
conditions_msg b = (map (λ c. condition_number c.0) b.conditions, map (λ c. c.1) b.conditions)

abbrev pub entry_msg : TableEntry → EntryMsg
entry_msg e = record {
  table_name = e.table_name;
  match_key_list = e.match_key ∷ [];
  action_name = e.action_name;
  action_data_list = e.action_data;
  handle = e.handle;
  status = status_number e.status;
}

module _ {T : Type 0} where
  -- The constructors of the classes that derive from DebuggerMessage: the type, and the message.
  unfoldable pub reply_content : Reply T → ℕ × Content T
  reply_content succeeded = (10, generic_acknowledge_msg 1)
  reply_content failed = (10, generic_acknowledge_msg 2)
  reply_content Reply.simulation_end = (25, simulation_end_msg)
  reply_content (counter_value_reply name value) = (5, counter_value_msg name value)
  reply_content (all_counter_values counters) =
      (6, all_counter_values_msg (map (λ c. c.0) counters) (map (λ c. c.1) counters))
  reply_content (all_breakpoint_values bs) = (
    12,
    all_breakpoint_values_msg (map (λ b. b.id) bs) (map conditions_msg bs)
        (map (λ b. flag b.temp) bs) (map (λ b. flag b.disabled) bs),
  )
  reply_content (who_am_i_reply packet_id) = (15, who_am_i_reply_msg packet_id)
  reply_content (packet_list_values ps) =
      (17, packet_list_values_msg (map (λ p. p.0) ps) (map (λ p. p.1) ps) (map (λ p. p.2) ps))
  reply_content (all_watchpoint_values ws) = (
    21,
    all_watchpoint_values_msg (map (λ w. w.id) ws) (map (λ w. w.counter_name) ws)
        (map (λ w. flag w.disabled) ws),
  )
  reply_content (backtrace_reply id ls) = (
    24,
    backtrace_reply_msg id (map (λ l. l.module_name) ls) (map (λ l. l.read_time) ls)
        (map (λ l. l.write_time) ls),
  )
  reply_content (packet_field_value bytes) = (48, packet_field_value_msg bytes)
  reply_content (raw_packet_value bytes) = (46, raw_packet_value_msg bytes)
  reply_content (parsed_packet_value headers) = (44, parsed_packet_value_msg headers)
  reply_content (all_ignore_modules modules) = (31, all_ignore_modules_msg modules)
  reply_content (simulation_time_value time) = (33, simulation_time_msg time)
  reply_content (dropped_packets ps) = (
    37,
    dropped_packets_msg (map (λ p. p.packet_id) ps) (map (λ p. p.in_module) ps)
        (map (λ p. p.reason) ps),
  )
  reply_content (table_entries es) = (42, table_entries_msg (map entry_msg es))
  reply_content (start_tracing_status id) = (50, start_tracing_status_msg id)

  unfoldable pub stop_content : StopMessage T → ℕ × Content T
  stop_content (breakpoint_hit id name packet_id sim_time read) =
      (8, breakpoint_hit_msg id name packet_id sim_time (flag read))
  stop_content (simulation_stopped name packet_id time read) =
      (28, simulation_stopped_msg name packet_id time read)
  stop_content (watchpoint_hit id counter_name old_value new_value) =
      (18, watchpoint_hit_msg id counter_name old_value new_value)
  stop_content (packet_dropped id name reason) = (35, packet_dropped_msg id name reason)
  stop_content StopMessage.simulation_end = (25, simulation_end_msg)

  -- `message.set_type` and `message.set_message(msg.SerializeAsString())`.
  unfoldable pub debugger_message : {B : Type 0} → (Content T → B) → ℕ × Content T → DebugMsg B
  debugger_message serialize (number, content) = record {
    type_number = number;
    message = serialize content;
  }
