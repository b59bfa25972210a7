-- ===== src/Debugger/Handshake/InStep.antt =====
-- DebugObserver.cpp, DebuggerIPCServer.cpp: the two threads stay in step.
use pfpsim.Common.{
  ◌≡◌, refl, sym, ap, ◌∙◌, Bool, true, false, Option, none, some, List, [], ◌∷◌, ◌++◌, map,
}
use pfpsim.Debugger.Handshake.{
  SimulationPlace, unstarted, running, announcing, pausing, ServerPlace, listening, waiting,
  Threads, run, continue, reply, announce, notify_server, resume,
}

module _ {M : Type 0} where
  -- Every stop so far was answered by its message.
  abbrev pub Answered : Threads M → Type 0
  Answered t = t.replies ≡ map some t.stops

  -- All but the last, whose message is the one that is to be sent.
  abbrev pub Pending : Threads M → Type 0
  Pending t =
      (earlier : List M) × (last : M) × (t.stops ≡ earlier ++ last ∷ [])
      × (t.reply_message ≡ some last)
      × (t.replies ≡ map some earlier)

  -- The places and flags that occur together, and what was answered there.
  abbrev pub InPlaces : SimulationPlace → ServerPlace → Bool → Bool → Threads M → Type 0
  InPlaces unstarted listening false false t = (t.stops ≡ []) × (t.replies ≡ [])
  InPlaces running waiting false false t = Answered t
  InPlaces announcing waiting false false t = Pending t
  InPlaces pausing waiting true false t = Pending t
  InPlaces pausing listening false false t = Answered t
  InPlaces pausing waiting false true t = Answered t
  InPlaces _ _ _ _ t = ⊥

  abbrev pub InStep : Threads M → Type 0
  InStep t = InPlaces t.simulation t.server t.stopped t.continue_command t

  abbrev pub Leads : Option (Threads M) → Type 0
  Leads none = Unit {0}
  Leads (some t) = InStep t

  map-snoc : (xs : List M) (x : M) → map some (xs ++ x ∷ []) ≡ map some xs ++ some x ∷ []
  map-snoc [] x = refl
  map-snoc (y ∷ xs) x = ap (λ l. some y ∷ l) (map-snoc xs x)

  abbrev pub at :
      SimulationPlace → ServerPlace → Bool → Bool → Option M → List M → List (Option M) → Threads M
  at simulation server stopped continue_command reply_message stops replies = record {
    simulation = simulation;
    server = server;
    stopped = stopped;
    continue_command = continue_command;
    reply_message = reply_message;
    stops = stops;
    replies = replies;
  }

  pub reply-Leads :
      (sim : SimulationPlace) (srv : ServerPlace) (st c : Bool) (m : Option M) (ss : List M)
      (rs : List (Option M))
      → InStep (at sim srv st c m ss rs)
      → Leads (reply (at sim srv st c m ss rs))
  unfolding reply
  reply-Leads pausing waiting true false m ss rs (earlier, last, e, f, g) =
      ap (λ l. l ++ m ∷ []) g
      ∙ ap (λ m. map some earlier ++ m ∷ []) f
      ∙ sym (ap (map some) e ∙ map-snoc earlier last)
  reply-Leads unstarted listening false false m ss rs h = tt
  reply-Leads running waiting false false m ss rs h = tt
  reply-Leads announcing waiting false false m ss rs h = tt
  reply-Leads pausing listening false false m ss rs h = tt
  reply-Leads pausing waiting false true m ss rs h = tt
  reply-Leads _ _ _ _ m ss rs h = absurd h

  pub run-Leads :
      (sim : SimulationPlace) (srv : ServerPlace) (st c : Bool) (m : Option M) (ss : List M)
      (rs : List (Option M))
      → InStep (at sim srv st c m ss rs)
      → Leads (run (at sim srv st c m ss rs))
  unfolding run
  run-Leads unstarted listening false false m ss rs (e, f) = f ∙ sym (ap (map some) e)
  run-Leads running waiting false false m ss rs h = tt
  run-Leads announcing waiting false false m ss rs h = tt
  run-Leads pausing waiting true false m ss rs h = tt
  run-Leads pausing listening false false m ss rs h = tt
  run-Leads pausing waiting false true m ss rs h = tt
  run-Leads _ _ _ _ m ss rs h = absurd h

  pub continue-Leads :
      (sim : SimulationPlace) (srv : ServerPlace) (st c : Bool) (m : Option M) (ss : List M)
      (rs : List (Option M))
      → (sim ≡ unstarted → ⊥)
      → InStep (at sim srv st c m ss rs)
      → Leads (continue (at sim srv st c m ss rs))
  unfolding continue
  continue-Leads unstarted listening false false m ss rs started h = absurd (started refl)
  continue-Leads running waiting false false m ss rs started h = tt
  continue-Leads announcing waiting false false m ss rs started h = tt
  continue-Leads pausing waiting true false m ss rs started h = tt
  continue-Leads pausing listening false false m ss rs started h = h
  continue-Leads pausing waiting false true m ss rs started h = tt
  continue-Leads _ _ _ _ m ss rs started h = absurd h

  pub announce-Leads :
      (msg : M) (sim : SimulationPlace) (srv : ServerPlace) (st c : Bool) (m : Option M)
      (ss : List M) (rs : List (Option M))
      → InStep (at sim srv st c m ss rs)
      → Leads (announce msg (at sim srv st c m ss rs))
  unfolding announce
  announce-Leads msg running waiting false false m ss rs h = (ss, msg, refl, refl, h)
  announce-Leads msg unstarted listening false false m ss rs h = tt
  announce-Leads msg announcing waiting false false m ss rs h = tt
  announce-Leads msg pausing waiting true false m ss rs h = tt
  announce-Leads msg pausing listening false false m ss rs h = tt
  announce-Leads msg pausing waiting false true m ss rs h = tt
  announce-Leads msg _ _ _ _ m ss rs h = absurd h

  pub notify_server-Leads :
      (sim : SimulationPlace) (srv : ServerPlace) (st c : Bool) (m : Option M) (ss : List M)
      (rs : List (Option M))
      → InStep (at sim srv st c m ss rs)
      → Leads (notify_server (at sim srv st c m ss rs))
  unfolding notify_server
  notify_server-Leads announcing waiting false false m ss rs h = h
  notify_server-Leads unstarted listening false false m ss rs h = tt
  notify_server-Leads running waiting false false m ss rs h = tt
  notify_server-Leads pausing waiting true false m ss rs h = tt
  notify_server-Leads pausing listening false false m ss rs h = tt
  notify_server-Leads pausing waiting false true m ss rs h = tt
  notify_server-Leads _ _ _ _ m ss rs h = absurd h

  pub resume-Leads :
      (sim : SimulationPlace) (srv : ServerPlace) (st c : Bool) (m : Option M) (ss : List M)
      (rs : List (Option M))
      → InStep (at sim srv st c m ss rs)
      → Leads (resume (at sim srv st c m ss rs))
  unfolding resume
  resume-Leads pausing waiting false true m ss rs h = h
  resume-Leads unstarted listening false false m ss rs h = tt
  resume-Leads running waiting false false m ss rs h = tt
  resume-Leads announcing waiting false false m ss rs h = tt
  resume-Leads pausing waiting true false m ss rs h = tt
  resume-Leads pausing listening false false m ss rs h = tt
  resume-Leads _ _ _ _ m ss rs h = absurd h
