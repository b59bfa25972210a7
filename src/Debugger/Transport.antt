-- ===== src/Debugger/Transport.antt =====
-- pfpsim/core/debugger/DebuggerIPCServer.cpp: the loop of the server's thread, and what goes over its
-- sockets. The library of the sockets and the encoding of messages are parameters.
pub mod Topics
use pfpsim.Common.{
  ◌>>=◌, ℕ, zero, suc, ◌+◌, ◌-◌, ◌/◌, ◌%◌, ◌≡◌, refl, true, false, Option, none, some, List, [],
  ◌∷◌, ◌++◌, if◌then◌else◌, ◌==◌, int_eq, leb, ℤ, pos, negsuc, length,
}

-- What `nn_poll` answers: 0, -1, or whether the socket can be read.
pub data Poll : Type 0 where
  timed_out poll_failed readable unreadable : Poll

-- `S` is the state of the sockets. `nn_recv` with `none` is -1.
pub record Nanomsg (S : Type 0) : Type 0 where
  pub nn_poll : S → Poll × S
  pub nn_recv : S → Option (List ℕ) × S
  pub nn_send : List ℕ → S → ℤ × S

-- `nothing` is the null pointer, `exits` is `exit(1)`.
pub data Received (M : Type 0) : Type 0 where
  exits nothing : Received M
  received : M → Received M

module _ {S M : Type 0} (nn : Nanomsg S) where
  -- The number of bytes that were sent is not looked at.
  unfoldable pub send : (M → List ℕ) → M → S → S
  send serialize message s = (nn.nn_send (serialize message) s).1

  abbrev as_received : (List ℕ → M) → Option (List ℕ) × S → Received M × S
  as_received parse (none, s) = (nothing, s)
  as_received parse (some bytes, s) = (received (parse bytes), s)

  unfoldable pub recv : (List ℕ → M) → S → Received M × S
  recv parse s =
      let polled = nn.nn_poll s in
      elim polled.0 [
        | timed_out ↦ (nothing, polled.1)
        | poll_failed ↦ (exits, polled.1)
        | readable ↦ as_received parse (nn.nn_recv polled.1)
        | unreadable ↦ (nothing, polled.1)
      ]

  -- A round of the thread. `parse_request` changes the server's state `W`, and the sockets, on which it
  -- replies; `none` is the end of the program.
  unfoldable pub round :
      {W : Type 0} → (List ℕ → M) → (M → W × S → Option (W × S)) → W × S → Option (W × S)
  round parse parse_request (w, s) =
      let got = recv parse s in
      elim got.0 [
        | exits ↦ none
        | nothing ↦ some (w, got.1)
        | received request ↦ parse_request request (w, got.1)
      ]

  -- The thread, where `kill_thread` is seen to be false `rounds` times, and then to be true.
  unfoldable pub request_thread :
      {W : Type 0} → (List ℕ → M) → (M → W × S → Option (W × S)) → ℕ → W × S → Option (W × S)
  request_thread parse parse_request zero state = some state
  request_thread parse parse_request (suc rounds) state = do
    next ← round parse parse_request state
    request_thread parse parse_request rounds next

-- `(id >> 8) & 0xff` and `id & 0xff`.
unfoldable pub topic_of : ℤ → List ℕ
topic_of (pos n) = n / 256 % 256 ∷ n % 256 ∷ []
topic_of (negsuc n) = (255 - n / 256 % 256) ∷ (255 - n % 256) ∷ []

-- The bytes of `buf` that are sent: "PFPDB", the identifier and the message; `none` is a message for
-- which the buffer is too small, so that the bytes after its end are read.
unfoldable pub trace_bytes : ℤ → List ℕ → Option (List ℕ)
trace_bytes id body =
    if leb (length body) 121 then some (80 ∷ 70 ∷ 80 ∷ 68 ∷ 66 ∷ (topic_of id ++ body)) else none

-- `serialize` encodes a TracingUpdateMsg of an identifier, the timestamp and the value; `none` also
-- stands for the assertion that all bytes have been sent.
unfoldable pub update_trace :
    {S T : Type 0} → Nanomsg S → (ℤ → T → T → List ℕ) → T → ℤ → T → S → Option S
update_trace nn serialize simulation_time id value s = do
  bytes ← trace_bytes id (serialize id simulation_time value)
  let sent = nn.nn_send bytes s
  if sent.0 == pos (length bytes) then some sent.1 else none
