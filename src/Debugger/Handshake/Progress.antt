-- ===== src/Debugger/Handshake/Progress.antt =====
-- DebugObserver.cpp, DebuggerIPCServer.cpp: no stop is lost and neither thread waits for ever.
use pfpsim.Common.{
  ◌≡◌, refl, sym, subst, ap, ◌∙◌, ◌⊎◌, inl, inr, Bool, true, false, Option, some, List, map,
}
use pfpsim.Debugger.Handshake.{
  SimulationPlace, unstarted, running, announcing, pausing, ServerPlace, listening, waiting,
  Threads, initial, reply, notify_server, resume, Step, runs, continues, replying, announces,
  notifies, resumes, Reachable, at_start, then_step,
}
use pfpsim.Debugger.Handshake.InStep.{
  Answered, Pending, InStep, at, Leads, reply-Leads, run-Leads, continue-Leads, announce-Leads,
  notify_server-Leads, resume-Leads,
}

module _ {M : Type 0} where
  Step-InStep : {t t' : Threads M} → Step t t' → InStep t → InStep t'
  Step-InStep {t} (runs e) h = subst Leads e (
      run-Leads t.simulation t.server t.stopped t.continue_command t.reply_message t.stops t.replies
        h)
  Step-InStep {t} (continues s e) h = subst Leads e (
      continue-Leads t.simulation t.server t.stopped t.continue_command t.reply_message t.stops
        t.replies s h)
  Step-InStep {t} (replying e) h = subst Leads e (
      reply-Leads t.simulation t.server t.stopped t.continue_command t.reply_message t.stops
        t.replies h)
  Step-InStep {t} (announces msg e) h = subst Leads e (
      announce-Leads msg t.simulation t.server t.stopped t.continue_command t.reply_message t.stops
        t.replies h)
  Step-InStep {t} (notifies e) h = subst Leads e (
      notify_server-Leads t.simulation t.server t.stopped t.continue_command t.reply_message t.stops
        t.replies h)
  Step-InStep {t} (resumes e) h = subst Leads e (
      resume-Leads t.simulation t.server t.stopped t.continue_command t.reply_message t.stops
        t.replies h)

  pub Reachable-InStep : {t : Threads M} → Reachable t → InStep t
  unfolding initial
  Reachable-InStep at_start = (refl, refl)
  Reachable-InStep (then_step r s) = Step-InStep s (Reachable-InStep r)

  InPlaces-answers :
      (sim : SimulationPlace) (srv : ServerPlace) (st c : Bool) (m : Option M) (ss : List M)
      (rs : List (Option M))
      → InStep (at sim srv st c m ss rs)
      → Answered (at sim srv st c m ss rs) ⊎ Pending (at sim srv st c m ss rs)
  InPlaces-answers unstarted listening false false m ss rs (e, f) = inl (f ∙ sym (ap (map some) e))
  InPlaces-answers running waiting false false m ss rs h = inl h
  InPlaces-answers announcing waiting false false m ss rs h = inr h
  InPlaces-answers pausing waiting true false m ss rs h = inr h
  InPlaces-answers pausing listening false false m ss rs h = inl h
  InPlaces-answers pausing waiting false true m ss rs h = inl h
  InPlaces-answers _ _ _ _ m ss rs h = absurd h

  -- In every state that the two threads reach, where the client continues only what it has run,
  -- each stop so far was answered once, in order and with its own message, except for the last,
  -- which may be still to be answered.
  pub Reachable-answers : (t : Threads M) → Reachable t → Answered t ⊎ Pending t
  Reachable-answers t r =
      InPlaces-answers t.simulation t.server t.stopped t.continue_command t.reply_message t.stops
        t.replies (Reachable-InStep r)

  -- A step that one of the threads can make without the client and without the simulated device.
  abbrev pub CanProceed : Threads M → Type 0
  CanProceed t =
      (t' : Threads M) × ((reply t ≡ some t') ⊎ (notify_server t ≡ some t') ⊎ (resume t ≡ some t'))

  proceeds :
      (sim : SimulationPlace) (srv : ServerPlace) (st c : Bool) (m : Option M) (ss : List M)
      (rs : List (Option M))
      → InStep (at sim srv st c m ss rs)
      → srv ≡ waiting
      → (sim ≡ running) ⊎ CanProceed (at sim srv st c m ss rs)
  unfolding reply notify_server resume
  proceeds unstarted listening false false m ss rs h e = absurd cc
  proceeds running waiting false false m ss rs h e = inl refl
  proceeds announcing waiting false false m ss rs h e = inr (_, inr (inl refl))
  proceeds pausing waiting true false m ss rs h e = inr (_, inl refl)
  proceeds pausing listening false false m ss rs h e = absurd cc
  proceeds pausing waiting false true m ss rs h e = inr (_, inr (inr refl))
  proceeds _ _ _ _ m ss rs h e = absurd h

  -- In every such state in which the server waits for a stop, the simulation runs or one of the
  -- two threads has a step: they never wait for each other.
  pub Reachable-proceeds :
      (t : Threads M) → Reachable t → t.server ≡ waiting → (t.simulation ≡ running) ⊎ CanProceed t
  Reachable-proceeds t r e =
      proceeds t.simulation t.server t.stopped t.continue_command t.reply_message t.stops t.replies
        (Reachable-InStep r) e
