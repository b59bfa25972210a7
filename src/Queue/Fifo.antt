-- ===== src/Queue/Fifo.antt =====
-- LMTQueue.h: the queue never holds more than its limit, and gives the items in the order of their
-- pushes.
use pfpsim.Common.{
  some_keeps, some_injective, ◌%◌, ℕ, ◌+◌, ◌-◌, ◌≤◌, ◌<◌, ◌≡◌, refl, sym, ap, subst, ◌∙◌, Bool,
  true, false, none, some, List, [], ◌∷◌, ◌++◌, arith, ◌==◌, nat_eq, if◌then◌else◌, plus64, minus64,
  length, length-append, ◌↔◌,
}
use pfpsim.Queue.{LmtQueue, init, full, available, push, taken, pop, Reach, starts, pushes, pops}

-- What holds of every state that is reached.
pub record IsFifo {A : Type 0} (N : ℕ) (q : LmtQueue A) (ins outs : List A) : Type 0 where
  pub in_order : outs ++ q.queue ≡ ins
  pub counted : q.slots ≡ length q.queue
  pub bounded : length q.queue ≤ N

module _ {A : Type 0} (N : ℕ) (small : N < 18446744073709551616) where
  append_assoc : (xs ys zs : List A) → (xs ++ ys) ++ zs ≡ xs ++ (ys ++ zs)
  append_assoc [] ys zs = refl
  append_assoc (x ∷ xs) ys zs = ap (λ l. x ∷ l) (append_assoc xs ys zs)

  push-IsFifo :
      (q q' : LmtQueue A) (ins outs : List A) (x : A)
      → IsFifo N q ins outs
      → push N x q ≡ some q'
      → IsFifo N q' (ins ++ x ∷ []) outs
  unfolding push full plus64
  push-IsFifo q q' ins outs x f h = pushed (q.slots == N) refl q' h
    where
      added :
          (q.slots == N) ≡ false
          → IsFifo N
              (record { queue = q.queue ++ x ∷ []; slots = (q.slots + 1) % 18446744073709551616 })
              (ins ++ x ∷ [])
              outs
      added room = record {
        in_order = sym (append_assoc outs q.queue (x ∷ [])) ∙ ap (λ l. l ++ x ∷ []) f.in_order;
        counted = ground (arith, length-append q.queue (x ∷ []));
        bounded = ground (arith, length-append q.queue (x ∷ []));
      }

      pushed :
          (b : Bool)
          → (q.slots == N) ≡ b
          → (q' : LmtQueue A)
          → (if b
              then none
              else some (record {
                queue = q.queue ++ x ∷ [];
                slots = (q.slots + 1) % 18446744073709551616;
              }))
            ≡ some q'
          → IsFifo N q' (ins ++ x ∷ []) outs
      pushed true e q' h = absurd cc
      pushed false e q' h = some_keeps (λ q'. IsFifo N q' (ins ++ x ∷ []) outs) _ (added e) q' h

  taken-IsFifo :
      (items : List A) (slots : ℕ) (q' : LmtQueue A) (ins outs : List A) (x : A)
      → outs ++ items ≡ ins
      → slots ≡ length items
      → length items ≤ N
      → taken items slots ≡ some (x, q')
      → IsFifo N q' ins (outs ++ x ∷ [])
  unfolding taken minus64
  taken-IsFifo [] slots q' ins outs x o c b h = absurd cc
  taken-IsFifo (y ∷ items) slots q' ins outs x o c b h =
      let got = some_injective h in
      subst (λ p. IsFifo N p.1 ins (outs ++ p.0 ∷ [])) got
        (record {
          in_order = append_assoc outs (y ∷ []) items ∙ o;
          counted = omega arith;
          bounded = omega arith;
        })

  -- In every state that is reached, where the limit is below 2^64, what was popped and what is
  -- held are together what was pushed, in that order; the counter of used places is the number of
  -- items held, which is at most the limit.
  pub Reach-IsFifo : {q : LmtQueue A} {ins outs : List A} → Reach N q ins outs → IsFifo N q ins outs
  unfolding init pop
  Reach-IsFifo starts = record { in_order = refl; counted = refl; bounded = omega arith }
  Reach-IsFifo (pushes {q} {q'} {ins} {outs} x r e) = push-IsFifo q q' ins outs x (Reach-IsFifo r) e
  Reach-IsFifo (pops {q} {q'} {ins} {outs} x r e) = popped q q' ins outs x (Reach-IsFifo r) e
    where
      popped :
          (q q' : LmtQueue A) (ins outs : List A) (x : A)
          → IsFifo N q ins outs
          → pop q ≡ some (x, q')
          → IsFifo N q' ins (outs ++ x ∷ [])
      popped q q' ins outs x f h =
          taken-IsFifo q.queue q.slots q' ins outs x f.in_order f.counted f.bounded h

  -- In every state that is reached, where the limit is below 2^64, a push waits exactly if the
  -- queue is at its limit, a pop exactly if it is empty, and `available` is the number of free
  -- places.
  pub Reach-waits :
      (q : LmtQueue A) (ins outs : List A) (x : A)
      → Reach N q ins outs
      → ((push N x q ≡ none) ↔ (length q.queue ≡ N))
        × ((pop q ≡ none) ↔ (length q.queue ≡ 0))
        × (available N q ≡ N - length q.queue)
  unfolding push full available pop taken minus64
  Reach-waits q ins outs x r =
      let f = Reach-IsFifo r in
      (ground arith, taken_none q.queue q.slots, omega (arith, f.counted, f.bounded))
    where
      taken_none : (items : List A) (slots : ℕ) → (taken items slots ≡ none) ↔ (length items ≡ 0)
      taken_none [] slots = (λ h. refl, λ h. refl)
      taken_none (y ∷ items) slots = (λ h. absurd cc, λ h. absurd (omega arith))
