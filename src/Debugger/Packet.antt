-- ===== src/Debugger/Packet.antt =====
-- pfpsim/core/debugger/DebuggerPacket.cpp and DebuggerPacket.h. `T` stands for `double` and `I` for
-- `DebugInfo`, an interface that the simulated model implements.
pub mod Backtrace
use pfpsim.Common.{
  ℕ, ◌≡◌, refl, Bool, true, false, ◌&&◌, Option, none, some, List, [], ◌∷◌, ◌++◌, String, arith,
  Equality, ◌==◌, string_eq, if◌then◌else◌, ℤ,
}
use pfpsim.Double.{Double, unset}

-- `PacketLocation`: a module that the packet entered (read) and left (written).
pub record PacketLocation (T : Type 0) : Type 0 where
  pub module_name : String
  pub read_time : T
  pub write_time : T

pub record DebuggerPacket (T I : Type 0) : Type 0 where
  pub packet_id : ℤ
  pub current_location : String
  pub last_notify_time : T
  pub trace : List (PacketLocation T)
  pub debug_info : Option I

module _ {T : Type 0} ⦃d : Double T⦄ where
  -- The test of `updateTraceWriteTime`: an entry of the module that has no write time yet.
  unfoldable pub is_open : String → PacketLocation T → Bool
  is_open m pl = pl.module_name == m && d.same pl.write_time unset

  unfoldable pub read_entry : String → T → PacketLocation T
  read_entry m rtime = record { module_name = m; read_time = rtime; write_time = unset }

  unfoldable pub write_entry : String → T → PacketLocation T
  write_entry m wtime = record { module_name = m; read_time = unset; write_time = wtime }

  -- The loop from `trace.rbegin()`: the last open entry gets the write time; `none` if there is none.
  close_last : String → T → List (PacketLocation T) → Option (List (PacketLocation T))
  unfolding is_open
  close_last m wtime [] = none
  close_last m wtime (pl ∷ rest) = elim (close_last m wtime rest) [
    | some rest' ↦ some (pl ∷ rest')
    | none ↦ if is_open m pl then some (record pl { write_time = wtime } ∷ rest) else none
  ]

  unfoldable pub trace_written : String → T → List (PacketLocation T) → List (PacketLocation T)
  unfolding close_last write_entry
  trace_written m wtime trace = elim (close_last m wtime trace) [
    | some trace' ↦ trace'
    | none ↦ trace ++ write_entry m wtime ∷ []
  ]

module _ {T I : Type 0} where
  -- `DebuggerPacket(id, location, time_ns)`.
  unfoldable pub new : ℤ → String → T → DebuggerPacket T I
  new id location time_ns = record {
    packet_id = id;
    current_location = location;
    last_notify_time = time_ns;
    trace = [];
    debug_info = none;
  }

  unfoldable pub set_current_location : String → DebuggerPacket T I → DebuggerPacket T I
  set_current_location loc pk = record pk { current_location = loc }

  unfoldable pub set_time : T → DebuggerPacket T I → DebuggerPacket T I
  set_time t pk = record pk { last_notify_time = t }

  unfoldable pub set_debug_info : Option I → DebuggerPacket T I → DebuggerPacket T I
  set_debug_info di pk = record pk { debug_info = di }

module _ {T I : Type 0} ⦃d : Double T⦄ where
  unfoldable pub update_trace_read_time : String → T → DebuggerPacket T I → DebuggerPacket T I
  unfolding read_entry
  update_trace_read_time m rtime pk = record pk { trace = pk.trace ++ read_entry m rtime ∷ [] }

  unfoldable pub update_trace_write_time : String → T → DebuggerPacket T I → DebuggerPacket T I
  unfolding trace_written
  update_trace_write_time m wtime pk = record pk { trace = trace_written m wtime pk.trace }
