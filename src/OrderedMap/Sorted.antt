-- ===== src/OrderedMap/Sorted.antt =====
-- The keys of a map stay in order, so each key stands at one place.
use pfpsim.Common.{◌==◌, Bool-cases, inl, inr, ◌≡◌, refl, true, none, [], ◌∷◌, arith, Equality}
use pfpsim.KeyOrder.{Order}
use pfpsim.OrderedMap.{Map, find, erase, assign, insert}

module _ {ℓ κ} {K : Type ℓ} {V : Type κ} ⦃e : Equality K⦄ ⦃o : Order K⦄ where
  -- Every key of the map comes after `k`.
  abbrev pub After : K → Map K V → Type 0
  After k [] = Unit {0}
  After k ((j, w) ∷ m) = (o.before k j ≡ true) × After k m

  abbrev pub IsSorted : Map K V → Type 0
  IsSorted [] = Unit {0}
  IsSorted ((j, w) ∷ m) = After j m × IsSorted m

  After-trans : (k j : K) (m : Map K V) → o.before k j ≡ true → After j m → After k m
  After-trans k j [] h a = tt
  After-trans k j ((i, w) ∷ m) h a = (o.trans k j i h a.0, After-trans k j m h a.1)

  pub find-After : (k : K) (m : Map K V) → After k m → find k m ≡ none
  unfolding find
  find-After k [] a = refl
  find-After k ((j, w) ∷ m) a = ground (arith, e.equal_iff k j, o.irrefl k, find-After k m a.1)

  After-assign :
      (i k : K) (v : V) (m : Map K V) → o.before i k ≡ true → After i m → After i (assign k v m)
  unfolding assign
  After-assign i k v [] h a = (h, tt)
  After-assign i k v ((j, w) ∷ m) h a = ground (arith, After-assign i k v m h a.1)

  pub assign-IsSorted : (k : K) (v : V) (m : Map K V) → IsSorted m → IsSorted (assign k v m)
  unfolding assign
  assign-IsSorted k v [] s = (tt, tt)
  assign-IsSorted k v ((j, w) ∷ m) s = ground (
    arith,
    e.equal_iff k j,
    o.total k j,
    After-trans k j m,
    After-assign j k v m,
    assign-IsSorted k v m s.1,
  )

  pub insert-IsSorted : (k : K) (v : V) (m : Map K V) → IsSorted m → IsSorted (insert k v m)
  unfolding insert
  insert-IsSorted k v m s = ground (arith, assign-IsSorted k v m s)

  -- A key before all others comes first.
  pub assign-After : (k : K) (v : V) (m : Map K V) → After k m → assign k v m ≡ (k, v) ∷ m
  unfolding assign
  assign-After k v [] h = refl
  assign-After k v ((j, w) ∷ m) h = elim (Bool-cases (k == j)) [
    | inl same ↦ absurd (ground (arith, e.equal_iff k j, o.irrefl k, h.0, same))
    | inr other ↦ rw (other, h.0) refl
  ]

  After-erase : (i k : K) (m : Map K V) → After i m → After i (erase k m)
  unfolding erase
  After-erase i k [] a = tt
  After-erase i k ((j, w) ∷ m) a = ground (arith, After-erase i k m a.1)

  pub erase-IsSorted : (k : K) (m : Map K V) → IsSorted m → IsSorted (erase k m)
  unfolding erase
  erase-IsSorted k [] s = tt
  erase-IsSorted k ((j, w) ∷ m) s = ground (arith, After-erase j k m s.0, erase-IsSorted k m s.1)
