-- ===== src/Debugger/Message.antt =====
-- The messages with which the simulation's side answers a stop: pfpsim/core/debugger/DebuggerMessages.h.
use pfpsim.Common.{Bool, String, ℤ}

pub data StopMessage (T : Type 0) : Type 0 where
  breakpoint_hit : ℤ → String → ℤ → T → Bool → StopMessage T
  simulation_stopped : String → ℤ → T → Bool → StopMessage T
  watchpoint_hit : ℤ → String → ℤ → ℤ → StopMessage T
  packet_dropped : ℤ → String → String → StopMessage T
  simulation_end : StopMessage T
