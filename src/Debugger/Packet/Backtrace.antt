-- ===== src/Debugger/Packet/Backtrace.antt =====
-- The backtrace of a packet: where a write time goes.
use pfpsim.Common.{
  ◌≡◌, true, false, Option, none, some, List, [], ◌∷◌, ◌++◌, String, arith, string_eq, any, ap,
  negsuc,
}
use pfpsim.Double.{Double, IsIeee}
use pfpsim.Debugger.Packet.{
  PacketLocation, DebuggerPacket, is_open, read_entry, close_last, trace_written,
  update_trace_read_time, update_trace_write_time,
}

module _ {T : Type 0} ⦃d : Double T⦄ where
  -- The trace splits at its last open entry of the module.
  pub record LastOpen (m : String) (trace : List (PacketLocation T)) : Type 0 where
    pub earlier : List (PacketLocation T)
    pub entry : PacketLocation T
    pub later : List (PacketLocation T)
    pub splits : trace ≡ earlier ++ entry ∷ later
    pub entry_open : is_open m entry ≡ true
    pub later_closed : any (is_open m) later ≡ false

  abbrev pub Closes :
      String → T → List (PacketLocation T) → Option (List (PacketLocation T)) → Type 0
  Closes m w trace none = any (is_open m) trace ≡ false
  Closes m w trace (some t) =
      (o : LastOpen m trace) × (t ≡ o.earlier ++ record (o.entry) { write_time = w } ∷ o.later)

  -- A split of the tail is one of the whole trace.
  LastOpen-cons :
      (m : String) (pl : PacketLocation T) {rest : List (PacketLocation T)}
      → LastOpen m rest
      → LastOpen m (pl ∷ rest)
  LastOpen-cons m pl o = record {
    earlier = pl ∷ o.earlier;
    entry = o.entry;
    later = o.later;
    splits = ap (◌∷◌ pl) o.splits;
    entry_open = o.entry_open;
    later_closed = o.later_closed;
  }

  close_last-append :
      (m : String) (w : T) (trace : List (PacketLocation T)) (pl : PacketLocation T)
      → is_open m pl ≡ true
      → close_last m w (trace ++ pl ∷ []) ≡ some (trace ++ record pl { write_time = w } ∷ [])
  unfolding close_last
  close_last-append m w [] pl h = ground arith
  close_last-append m w (x ∷ trace) pl h = ground (arith, close_last-append m w trace pl h)

module _ {T : Type 0} ⦃d : Double T⦄ (ieee : IsIeee d) where
  read_entry-is_open : (m : String) (r : T) → is_open m (read_entry m r) ≡ true
  unfolding is_open read_entry
  read_entry-is_open m r =
      ground (arith, string_eq.equal_iff m m, ieee.same_of_int (negsuc 0) (negsuc 0))

  -- Reading into a module and then writing from it leaves one entry with both times at the end of
  -- the backtrace, whatever the backtrace held before.
  pub update_trace_write_time-update_trace_read_time :
      {I : Type 0} (m : String) (r w : T) (pk : DebuggerPacket T I)
      → update_trace_write_time m w (update_trace_read_time m r pk) ≡ record pk {
        trace = pk.trace ++ record { module_name = m; read_time = r; write_time = w } ∷ [];
      }
  unfolding update_trace_write_time update_trace_read_time read_entry trace_written
  update_trace_write_time-update_trace_read_time m r w pk =
      ground (arith, close_last-append m w pk.trace (read_entry m r) (read_entry-is_open m r))
