-- ===== src/OrderedMap.antt =====
-- `std::map`, which the data manager, breakpoints, counters and table entries stand on: an
-- association list that is kept in the order of its keys, so that iteration is in key order.
pub mod Sorted
use pfpsim.Common.{
  ◌≡◌, refl, Bool, true, false, Option, none, some, List, [], ◌∷◌, arith, Equality, ◌==◌,
  if◌then◌else◌, or_else, Bool-cases, inl, inr, subst,
}
use pfpsim.KeyOrder.{Order}

abbrev pub Map {ℓ κ} : Type ℓ → Type κ → Type (ℓ ⊔ κ)
Map K V = List (K × V)

module _ {ℓ κ} {K : Type ℓ} {V : Type κ} ⦃e : Equality K⦄ where
  -- `m.find(k)`, and `m.at(k)` with `none` for `std::out_of_range`.
  unfoldable pub find : K → Map K V → Option V
  find k [] = none
  find k ((j, w) ∷ m) = if k == j then some w else find k m

  -- `m.erase(k)`.
  unfoldable pub erase : K → Map K V → Map K V
  erase k [] = []
  erase k ((j, w) ∷ m) = let rest = erase k m in if k == j then rest else (j, w) ∷ rest

  pub find-nil : (k : K) → find k ([]) ≡ none
  unfolding find
  find-nil k = refl

  pub find-erase :
      (j k : K) (m : Map K V) → find j (erase k m) ≡ (if j == k then none else find j m)
  unfolding find erase
  find-erase j k [] = ground arith
  find-erase j k ((i, w) ∷ m) =
      ground (arith, e.equal_iff j k, e.equal_iff k i, e.equal_iff j i, find-erase j k m)

module _ {ℓ κ} {K : Type ℓ} {V : Type κ} ⦃e : Equality K⦄ ⦃o : Order K⦄ where
  -- `m[k] = v`.
  unfoldable pub assign : K → V → Map K V → Map K V
  assign k v [] = (k, v) ∷ []
  assign k v ((j, w) ∷ m) =
      let rest = assign k v m in
      if k == j then (k, v) ∷ m else if o.before k j then (k, v) ∷ (j, w) ∷ m else (j, w) ∷ rest

  pub find-assign :
      (j k : K) (v : V) (m : Map K V)
      → find j (assign k v m) ≡ (if j == k then some v else find j m)
  unfolding find assign
  find-assign j k v [] = refl
  find-assign j k v ((i, w) ∷ m) =
      ground (arith, e.equal_iff j k, e.equal_iff k i, e.equal_iff j i, find-assign j k v m)

  abbrev insert_at : Option V → K → V → Map K V → Map K V
  insert_at (some w) k v m = m
  insert_at none k v m = assign k v m

  -- `m.insert({k, v})` and `m.emplace(k, v)`: an entry that is there stays.
  unfoldable pub insert : K → V → Map K V → Map K V
  insert k v m = insert_at (find k m) k v m

  pub find-insert :
      (j k : K) (v : V) (m : Map K V)
      → find j (insert k v m) ≡ (if j == k then some (or_else (find k m) v) else find j m)
  unfolding insert
  find-insert j k v m = ground (arith, find-assign j k v m, e.equal_iff j k)

  pub find-insert_self :
      (k : K) (v : V) (m : Map K V) → find k (insert k v m) ≡ some (or_else (find k m) v)
  find-insert_self k v m = ground (arith, find-insert k k v m, e.equal_iff k k)

-- What holds of a new value and of all old ones holds of all values after the assignment.
pub find-assign_all :
    {K V : Type 0} ⦃e : Equality K⦄ ⦃o : Order K⦄ (P : V → Type 0) (k : K) (v : V) (m : Map K V)
    → P v
    → ((j : K) (w : V) → find j m ≡ some w → P w)
    → (j : K) (w : V) → find j (assign k v m) ≡ some w
    → P w
find-assign_all ⦃e⦄ P k v m h old j w eq = elim (Bool-cases (j == k)) [
  | inl hit ↦ subst P (hit_value hit) h
  | inr miss ↦ old j w (ground (arith, find-assign j k v m))
]
  where
    hit_value : (j == k) ≡ true → v ≡ w
    hit_value hit = ground (arith, find-assign j k v m)
