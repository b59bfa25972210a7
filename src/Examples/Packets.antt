-- ===== src/Examples/Packets.antt =====
-- A packet's backtrace.
use pfpsim.Common.{◌≡◌, refl, List, [], ◌∷◌, String, string_eq, ℤ, pos, negsuc}
use pfpsim.Debugger.Packet.{PacketLocation, trace_written}
use pfpsim.Examples.Times.{int_double}

abbrev location : String → ℤ → ℤ → PacketLocation ℤ
location m r w = record { module_name = m; read_time = r; write_time = w }

abbrev visits : List (PacketLocation ℤ)
visits = location "parser" (pos 1) (pos 2) ∷ location "deparser" (pos 3) (negsuc 0) ∷ []

-- The entry that is open gets the time.
trace_written_run :
    trace_written "deparser" (pos 9) visits
    ≡ location "parser" (pos 1) (pos 2) ∷ location "deparser" (pos 3) (pos 9) ∷ []
unfolding trace_written
trace_written_run = refl
