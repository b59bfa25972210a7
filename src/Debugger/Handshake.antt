-- ===== src/Debugger/Handshake.antt =====
-- The handshake between the simulation (pfpsim/core/debugger/DebugObserver.cpp: `notifyServer`, `pause`)
-- and the server's thread (DebuggerIPCServer.cpp: `handleRun`, `handleContinue`, `waitForStop`). Each holds
-- a mutex where it tests and sets a flag, so a step is one such section; a thread whose condition fails
-- has no step. `M` is the type of the messages.
pub mod InStep
pub mod Progress
use pfpsim.Common.{Bool, true, false, Option, none, some, List, [], ◌∷◌, ◌++◌, ◌≡◌}

-- Where the simulation is: before the command to run; between stops; after `setReplyMessage`, before
-- `notifyServer`; in `pause`.
pub data SimulationPlace : Type 0 where
  unstarted running announcing pausing : SimulationPlace

-- Where the server's thread is: it waits for a request, or in `waitForStop`.
pub data ServerPlace : Type 0 where
  listening waiting : ServerPlace

-- `stops` and `replies` are what was announced and what was sent so far, in order.
pub record Threads (M : Type 0) : Type 0 where
  pub simulation : SimulationPlace
  pub server : ServerPlace
  pub stopped : Bool
  pub continue_command : Bool
  pub reply_message : Option M
  pub stops : List M
  pub replies : List (Option M)

module _ {M : Type 0} where
  unfoldable pub initial : Threads M
  initial = record {
    simulation = unstarted;
    server = listening;
    stopped = false;
    continue_command = false;
    reply_message = none;
    stops = [];
    replies = [];
  }

  -- `handleRun`, at the first command to run.
  unfoldable pub run : Threads M → Option (Threads M)
  run t = elim t.simulation [
    | unstarted ↦ elim t.server [
      | listening ↦ some (record t { simulation = running; server = waiting })
      | waiting ↦ none
    ]
    | _ ↦ none
  ]

  -- `handleContinue`, up to its wait.
  unfoldable pub continue : Threads M → Option (Threads M)
  continue t = elim t.server [
    | listening ↦ some (record t { continue_command = true; server = waiting })
    | waiting ↦ none
  ]

  -- The end of `waitForStop`, and the reply: an acknowledgement (`none`) if there is no message.
  unfoldable pub reply : Threads M → Option (Threads M)
  reply t = elim t.server [
    | listening ↦ none
    | waiting ↦ elim t.stopped [
      | true ↦ some (record t {
        stopped = false;
        server = listening;
        replies = t.replies ++ t.reply_message ∷ [];
      })
      | false ↦ none
    ]
  ]

  -- `setReplyMessage`, at a hit.
  unfoldable pub announce : M → Threads M → Option (Threads M)
  announce msg t = elim t.simulation [
    | running ↦ some (record t {
      simulation = announcing;
      reply_message = some msg;
      stops = t.stops ++ msg ∷ [];
    })
    | _ ↦ none
  ]

  unfoldable pub notify_server : Threads M → Option (Threads M)
  notify_server t = elim t.simulation [
    | announcing ↦ some (record t { stopped = true; simulation = pausing })
    | _ ↦ none
  ]

  -- The end of `pause`.
  unfoldable pub resume : Threads M → Option (Threads M)
  resume t = elim t.simulation [
    | pausing ↦ elim t.continue_command [
      | true ↦ some (record t { continue_command = false; simulation = running })
      | false ↦ none
    ]
    | _ ↦ none
  ]

-- A client continues only what it has run: the debugger sends its commands in that order.
pub data Step {M : Type 0} : Threads M → Threads M → Type 0 where
  runs : {t t' : Threads M} → run t ≡ some t' → Step t t'
  continues : {t t' : Threads M} → (t.simulation ≡ unstarted → ⊥) → continue t ≡ some t' → Step t t'
  replying : {t t' : Threads M} → reply t ≡ some t' → Step t t'
  announces : {t t' : Threads M} (msg : M) → announce msg t ≡ some t' → Step t t'
  notifies : {t t' : Threads M} → notify_server t ≡ some t' → Step t t'
  resumes : {t t' : Threads M} → resume t ≡ some t' → Step t t'

pub data Reachable {M : Type 0} : Threads M → Type 0 where
  at_start : Reachable initial
  then_step : {t t' : Threads M} → Reachable t → Step t t' → Reachable t'
