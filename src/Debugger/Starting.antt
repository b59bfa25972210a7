-- ===== src/Debugger/Starting.antt =====
-- DebuggerIPCServer.cpp: how the thread of the server is started and stopped, and the mutex at which the
-- simulation waits for the command to run.
use pfpsim.Common.{◌≡◌, refl, Bool, true, false, Option, none, some}

-- The thread of the simulation, which makes the server, and the server's own, `debug_req_thread`.
pub data Thread : Type 0 where
  simulation_thread debug_req_thread : Thread

-- What becomes of a call on a `std::mutex`: it is done, it waits, or it is undefined.
pub data Locking (A : Type 0) : Type 0 where
  is_done : A → Locking A
  waits is_undefined : Locking A

-- `start_mutex` with the thread that holds it, whether `ulock` holds it, and the thread of the server.
pub record Starting : Type 0 where
  pub start_mutex : Option Thread
  pub ulock : Bool
  pub runs : Bool
  pub kill_thread : Bool

unfoldable pub not_started : Starting
not_started = record { start_mutex = none; ulock = false; runs = false; kill_thread = false }

-- A mutex is not locked again by the thread that holds it.
unfoldable pub lock : Thread → Option Thread → Locking (Option Thread)
lock caller none = is_done (some caller)
lock simulation_thread (some simulation_thread) = is_undefined
lock debug_req_thread (some debug_req_thread) = is_undefined
lock caller (some other) = waits

-- A mutex is unlocked by the thread that holds it.
unfoldable pub unlock : Thread → Option Thread → Locking (Option Thread)
unlock simulation_thread (some simulation_thread) = is_done none
unlock debug_req_thread (some debug_req_thread) = is_done none
unlock caller _ = is_undefined

infixl 5 ◌>>=◌
◌>>=◌ : {A B : Type 0} → Locking A → (A → Locking B) → Locking B
is_done a >>= f = f a
waits >>= f = waits
is_undefined >>= f = is_undefined

unfoldable pub start : Thread → Starting → Locking Starting
unfolding ◌>>=◌
start caller s =
    lock caller s.start_mutex
    >>= (λ held. is_done (record s { start_mutex = held; ulock = true; runs = true }))

-- The `lock_guard` locks and unlocks.
unfoldable pub wait_for_run_command : Thread → Starting → Locking Starting
unfolding ◌>>=◌
wait_for_run_command caller s =
    lock caller s.start_mutex
    >>= (λ held. unlock caller held >>= (λ free. is_done (record s { start_mutex = free })))

-- `ulock->unlock()` of `handleRun`.
unfoldable pub release : Thread → Starting → Locking Starting
unfolding ◌>>=◌
release caller s =
    unlock caller s.start_mutex
    >>= (λ free. is_done (record s { start_mutex = free; ulock = false }))

-- The destructor: `delete ulock` unlocks what it still holds, and the thread ends when it sees
-- `kill_thread`, for which the destructor waits.
unfoldable pub destroy : Thread → Starting → Locking Starting
unfolding ◌>>=◌
destroy caller s = elim s.ulock [
  | false ↦ is_done (record s { runs = false; kill_thread = true })
  | true ↦ unlock caller s.start_mutex >>= (λ free.
      is_done (record s { start_mutex = free; ulock = false; runs = false; kill_thread = true }))
]

-- The simulation's thread starts the server. After that its own wait for the command to run is undefined,
-- as it holds the mutex already, and so is the release of the mutex by the server's thread.
pub start_undefined :
    (s : Starting) × (start simulation_thread not_started ≡ is_done s)
    × (wait_for_run_command simulation_thread s ≡ is_undefined)
    × (release debug_req_thread s ≡ is_undefined)
unfolding start wait_for_run_command release lock unlock not_started
start_undefined = (
  record { start_mutex = some simulation_thread; ulock = true; runs = true; kill_thread = false },
  refl,
  refl,
  refl,
)
