-- ===== src/Examples/Handshakes.antt =====
-- The simulation runs, stops once, and is answered.
use pfpsim.Common.{ℕ, ◌≡◌, refl, ◌⊎◌, true, false, some, [], ◌∷◌}
use pfpsim.Debugger.Handshake.{
  running, pausing, waiting, Threads, initial, run, announce, notify_server, runs, announces,
  notifies, Reachable, at_start, then_step,
}
use pfpsim.Debugger.Handshake.InStep.{Answered, Pending}
use pfpsim.Debugger.Handshake.Progress.{CanProceed, Reachable-answers, Reachable-proceeds}

-- Stop 3 is announced and the server notified.
abbrev stopping : Threads ℕ
stopping = record {
  simulation = pausing;
  server = waiting;
  stopped = true;
  continue_command = false;
  reply_message = some 3;
  stops = 3 ∷ [];
  replies = [];
}

stopping-Reachable : Reachable stopping
unfolding initial run announce notify_server
stopping-Reachable =
    then_step (then_step (then_step at_start (runs refl)) (announces 3 refl)) (notifies refl)

Reachable-answers_example : Answered stopping ⊎ Pending stopping
Reachable-answers_example = Reachable-answers stopping stopping-Reachable

Reachable-proceeds_example : (pausing ≡ running) ⊎ CanProceed stopping
Reachable-proceeds_example = Reachable-proceeds stopping stopping-Reachable refl
