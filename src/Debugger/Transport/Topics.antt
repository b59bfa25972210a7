-- ===== src/Debugger/Transport/Topics.antt =====
-- DebuggerIPCServer.cpp: the topics of traces and the rounds of the server's thread.
use pfpsim.Common.{
  ◌>>=◌, ℕ, zero, suc, ◌+◌, ◌*◌, ◌/◌, ◌%◌, ◌≤◌, ◌≡◌, refl, ap, ◌∙◌, Option, none, some, List, ◌∷◌,
  pos, length, arith, Option-cases, inl, inr,
}
use pfpsim.Debugger.Transport.{Nanomsg, round, request_thread, topic_of, trace_bytes}

-- What a subscriber reads: the identifier after the five letters, and the message after it.
abbrev pub subscriber : List ℕ → Option (ℕ × List ℕ)
subscriber (p ∷ f ∷ q ∷ d ∷ b ∷ high ∷ low ∷ body) = some (high * 256 + low, body)
subscriber _ = none

-- An update with a message of at most 121 bytes fits into the buffer, and a subscriber reads its
-- identifier modulo 65536, and the message.
pub subscriber-trace_bytes :
    (id : ℕ) (body : List ℕ)
    → length body ≤ 121
    → (bytes : List ℕ) × (trace_bytes (pos id) body ≡ some bytes)
      × (length bytes ≤ 128)
      × (subscriber bytes ≡ some (id % 65536, body))
unfolding trace_bytes topic_of
subscriber-trace_bytes id body h = (
  80 ∷ 70 ∷ 80 ∷ 68 ∷ 66 ∷ id / 256 % 256 ∷ id % 256 ∷ body,
  ground (arith, h),
  omega (arith, h),
  ap (λ n. some (n, body)) (omega arith),
)

-- More rounds go on from where fewer have come to.
pub request_thread-add :
    {S M W : Type 0} (nn : Nanomsg S) (parse : List ℕ → M)
    (parse_request : M → W × S → Option (W × S)) (rounds more : ℕ) (state : W × S)
    → request_thread nn parse parse_request (rounds + more) state ≡ (
        request_thread nn parse parse_request rounds state
        >>= request_thread nn parse parse_request more)
unfolding request_thread
request_thread-add nn parse pr zero more state =
    ap (λ n. request_thread nn parse pr n state) (omega arith)
request_thread-add nn parse pr (suc rounds) more state =
    let order : suc rounds + more ≡ suc (rounds + more) = omega arith in
    let start : request_thread nn parse pr (suc rounds + more) state
        ≡ request_thread nn parse pr (suc (rounds + more)) state =
      ap (λ n. request_thread nn parse pr n state) order in
    start ∙ elim (Option-cases (round nn parse pr state)) [
      | inl e ↦ rw e refl
      | inr (next, e) ↦ rw e (request_thread-add nn parse pr rounds more next)
    ]
