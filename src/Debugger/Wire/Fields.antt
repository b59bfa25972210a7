-- ===== src/Debugger/Wire/Fields.antt =====
-- DebuggerMessages.cpp: lists are read back from the lists of their fields.
use pfpsim.Common.{
  ℕ, ◌≡◌, refl, ap, Bool, true, false, List, [], ◌∷◌, String, map, ℤ, if◌then◌else◌, ◌==◌,
  string_eq, nat_eq,
}
use pfpsim.OrderedMap.{Map}
use pfpsim.Debugger.Breakpoint.{
  Condition, break_on_module_read, break_on_module_write, break_at_time, break_on_packet_id,
  Breakpoint,
}
use pfpsim.Debugger.Watchpoint.{Watchpoint}
use pfpsim.Debugger.Packet.{PacketLocation}
use pfpsim.Debugger.DataManager.{DroppedPacket}
use pfpsim.Debugger.CpInterface.{
  TableEntry, TableEntryStatus, ok, inserting, deleting, modifying, no_status,
}
use pfpsim.Debugger.Wire.{
  EntryMsg, flag, condition_number, status_number, conditions_msg, entry_msg,
}

module _ {A B : Type 0} where
  unfoldable pub zip : List A → List B → List (A × B)
  zip (a ∷ xs) (b ∷ ys) = (a, b) ∷ zip xs ys
  zip _ _ = []

  pub zip-map : (ps : List (A × B)) → zip (map (λ p. p.0) ps) (map (λ p. p.1) ps) ≡ ps
  unfolding zip
  zip-map [] = refl
  zip-map (p ∷ ps) = ap (λ qs. p ∷ qs) (zip-map ps)

unfoldable pub read_condition : ℕ → Condition
read_condition n =
    if n == 1
    then break_on_module_read
    else if n == 2
    then break_on_module_write
    else if n == 3
    then break_at_time
    else break_on_packet_id

unfoldable pub read_conditions : List ℕ → List String → Map Condition String
unfolding read_condition
read_conditions (n ∷ ns) (v ∷ vs) = (read_condition n, v) ∷ read_conditions ns vs
read_conditions _ _ = []

read_condition-condition_number : (c : Condition) → read_condition (condition_number c) ≡ c
unfolding read_condition condition_number
read_condition-condition_number break_on_module_read = refl
read_condition-condition_number break_on_module_write = refl
read_condition-condition_number break_at_time = refl
read_condition-condition_number break_on_packet_id = refl

pub read_conditions-map :
    (cs : Map Condition String)
    → read_conditions (map (λ c. condition_number c.0) cs) (map (λ c. c.1) cs) ≡ cs
unfolding read_conditions
read_conditions-map [] = refl
read_conditions-map ((c, v) ∷ cs) =
    rw (read_condition-condition_number c, read_conditions-map cs) refl

unfoldable pub read_status : ℕ → TableEntryStatus
read_status n =
    if n == 1
    then ok
    else if n == 2
    then inserting
    else if n == 3
    then deleting
    else if n == 4
    then modifying
    else no_status

read_status-status_number : (s : TableEntryStatus) → read_status (status_number s) ≡ s
unfolding read_status status_number
read_status-status_number ok = refl
read_status-status_number inserting = refl
read_status-status_number deleting = refl
read_status-status_number modifying = refl
read_status-status_number no_status = refl

unfoldable pub is_set : String → Bool
is_set s = s == "1"

pub is_set-flag : (b : Bool) → is_set (flag b) ≡ b
unfolding is_set
is_set-flag true = refl
is_set-flag false = refl

unfoldable pub read_breakpoints :
    List ℤ → List (List ℕ × List String) → List String → List String → List Breakpoint
unfolding read_conditions is_set
read_breakpoints (id ∷ ids) ((ns, vs) ∷ cs) (t ∷ ts) (d ∷ ds) =
    record { conditions = read_conditions ns vs; temp = is_set t; disabled = is_set d; id = id }
    ∷ read_breakpoints ids cs ts ds
read_breakpoints _ _ _ _ = []

pub read_breakpoints-map :
    (bs : List Breakpoint)
    → read_breakpoints
        (map (λ b. b.id) bs)
        (map conditions_msg bs)
        (map (λ b. flag b.temp) bs)
        (map (λ b. flag b.disabled) bs)
      ≡ bs
unfolding read_breakpoints
read_breakpoints-map [] = refl
read_breakpoints-map (b ∷ bs) =
    rw
      (
        read_conditions-map b.conditions,
        is_set-flag b.temp,
        is_set-flag b.disabled,
        read_breakpoints-map bs,
      )
      refl

unfoldable pub read_watchpoints : List ℤ → List String → List String → List Watchpoint
unfolding is_set
read_watchpoints (id ∷ ids) (n ∷ ns) (d ∷ ds) =
    record { disabled = is_set d; id = id; counter_name = n } ∷ read_watchpoints ids ns ds
read_watchpoints _ _ _ = []

pub read_watchpoints-map :
    (ws : List Watchpoint)
    → read_watchpoints
        (map (λ w. w.id) ws)
        (map (λ w. w.counter_name) ws)
        (map (λ w. flag w.disabled) ws)
      ≡ ws
unfolding read_watchpoints
read_watchpoints-map [] = refl
read_watchpoints-map (w ∷ ws) = rw (is_set-flag w.disabled, read_watchpoints-map ws) refl

module _ {T : Type 0} where
  unfoldable pub read_locations : List String → List T → List T → List (PacketLocation T)
  read_locations (m ∷ ms) (r ∷ rs) (w ∷ ws) =
      record { module_name = m; read_time = r; write_time = w } ∷ read_locations ms rs ws
  read_locations _ _ _ = []

  pub read_locations-map :
      (ls : List (PacketLocation T))
      → read_locations
          (map (λ l. l.module_name) ls)
          (map (λ l. l.read_time) ls)
          (map (λ l. l.write_time) ls)
        ≡ ls
  unfolding read_locations
  read_locations-map [] = refl
  read_locations-map (l ∷ ls) = rw (read_locations-map ls) refl

  unfoldable pub read_packets : List ℤ → List String → List T → List (ℤ × String × T)
  read_packets (i ∷ is) (l ∷ ls) (t ∷ ts) = (i, l, t) ∷ read_packets is ls ts
  read_packets _ _ _ = []

  pub read_packets-map :
      (ps : List (ℤ × String × T))
      → read_packets (map (λ p. p.0) ps) (map (λ p. p.1) ps) (map (λ p. p.2) ps) ≡ ps
  unfolding read_packets
  read_packets-map [] = refl
  read_packets-map (p ∷ ps) = rw (read_packets-map ps) refl

unfoldable pub read_drops : List ℤ → List String → List String → List DroppedPacket
read_drops (i ∷ is) (m ∷ ms) (r ∷ rs) =
    record { packet_id = i; in_module = m; reason = r } ∷ read_drops is ms rs
read_drops _ _ _ = []

pub read_drops-map :
    (ps : List DroppedPacket)
    → read_drops (map (λ p. p.packet_id) ps) (map (λ p. p.in_module) ps) (map (λ p. p.reason) ps)
      ≡ ps
unfolding read_drops
read_drops-map [] = refl
read_drops-map (p ∷ ps) = rw (read_drops-map ps) refl

unfoldable pub first_or_empty : List String → String
first_or_empty [] = ""
first_or_empty (k ∷ ks) = k

unfoldable pub entry_of : EntryMsg → TableEntry
unfolding read_status first_or_empty
entry_of e = record {
  table_name = e.table_name;
  match_key = first_or_empty e.match_key_list;
  action_name = e.action_name;
  action_data = e.action_data_list;
  handle = e.handle;
  status = read_status e.status;
}

pub read_entries-map : (es : List TableEntry) → map entry_of (map entry_msg es) ≡ es
unfolding entry_of
read_entries-map [] = refl
read_entries-map (e ∷ es) = rw (read_status-status_number e.status, read_entries-map es) refl
