-- ===== src/Queue.antt =====
-- pfpsim/core/LMTQueue.h and MTQueue.h: the queues between modules. SystemC processes are not
-- preempted and none waits while it holds the mutex, so from the end of its waiting loop each `push`
-- and `pop` is one step; where the loop would wait, the step is not there (`none`).
pub mod Fifo
use pfpsim.Common.{
  ℕ, ◌≡◌, Bool, Option, none, some, List, [], ◌∷◌, ◌++◌, ◌==◌, nat_eq, if◌then◌else◌, plus64,
  minus64, length,
}

pub record LmtQueue (A : Type 0) : Type 0 where
  pub queue : List A
  pub slots : ℕ

-- The size limit `N` is a template parameter of type `size_t`.
module _ {A : Type 0} where
  unfoldable pub init : LmtQueue A
  init = record { queue = []; slots = 0 }

  unfoldable pub full : ℕ → LmtQueue A → Bool
  full N q = q.slots == N

  unfoldable pub available : ℕ → LmtQueue A → ℕ
  available N q = minus64 N q.slots

  unfoldable pub empty : LmtQueue A → Bool
  empty q = length q.queue == 0

  unfoldable pub push : ℕ → A → LmtQueue A → Option (LmtQueue A)
  push N item q =
      if full N q
      then none
      else some (record { queue = q.queue ++ item ∷ []; slots = plus64 q.slots 1 })

  taken : List A → ℕ → Option (A × LmtQueue A)
  taken [] slots = none
  taken (item ∷ rest) slots = some (item, record { queue = rest; slots = minus64 slots 1 })

  unfoldable pub pop : LmtQueue A → Option (A × LmtQueue A)
  unfolding taken
  pop q = taken q.queue q.slots

  -- The queue without a limit: its list of items.
  unfoldable pub push_unlimited : A → List A → List A
  push_unlimited item q = q ++ item ∷ []

  unfoldable pub pop_unlimited : List A → Option (A × List A)
  pop_unlimited [] = none
  pop_unlimited (item ∷ rest) = some (item, rest)

-- The states that the steps of any processes lead to, with the items that were pushed and popped so
-- far, in order.
pub data Reach {A : Type 0} (N : ℕ) : LmtQueue A → List A → List A → Type 0 where
  starts : Reach N init [] []
  pushes :
      {q q' : LmtQueue A} {ins outs : List A} (x : A)
      → Reach N q ins outs
      → push N x q ≡ some q'
      → Reach N q' (ins ++ x ∷ []) outs
  pops :
      {q q' : LmtQueue A} {ins outs : List A} (x : A)
      → Reach N q ins outs
      → pop q ≡ some (x, q')
      → Reach N q' ins (outs ++ x ∷ [])
