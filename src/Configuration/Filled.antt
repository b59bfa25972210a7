-- ===== src/Configuration/Filled.antt =====
-- ConfigurationParameters.cpp: which values the filled configuration has.
use pfpsim.Common.{
  ℕ, zero, suc, ◌≡◌, refl, sym, ap, ◌∙◌, true, false, List, [], ◌∷◌, Option, none, some, String,
  ◌==◌, string_eq, nat_eq, beq_eq, beq_self, length, get_elem?, arith, Bool-cases, Option-cases,
  inl, inr, subst,
}
use pfpsim.KeyOrder.{string_order}
use pfpsim.OrderedMap.{Map, find, assign, find-assign, find-nil}
use pfpsim.OrderedMap.Sorted.{IsSorted, find-After, assign-IsSorted}
use pfpsim.Configuration.{
  object, array, Json, Outcome, done, ◌>>=◌, CompareResult, Compare, compare_members, compare_items,
}
use pfpsim.Configuration.Outcomes.{done_injective, bind_done}

-- What the library promises: the members of an object are in the order of their keys, and a value
-- that is made of entries has them.
pub record JsonLaws {J : Type 0} (json : Json J) : Type 0 where
  pub members_IsSorted : (j : J) (m : Map String J) → json.shape j ≡ object m → IsSorted m
  pub shape-object_of : (m : Map String J) → IsSorted m → json.shape (json.object_of m) ≡ object m
  pub shape-array_of : (xs : List J) → json.shape (json.array_of xs) ≡ array xs

module _ {J : Type 0} (compare_entry : Compare J) where
  -- How the entry at one place of the result comes from those of `compare` and of `golden`.
  abbrev pub Entry : Option J → Option J → Option J → Type 0
  Entry none golden filled = filled ≡ golden
  Entry (some a) none filled = ⊥
  Entry (some a) (some b) filled =
      (r : CompareResult J) × (compare_entry a b ≡ done r) × (filled ≡ some r.resultobject)

  Entry-at :
      {oc oc' og og' filled filled' : Option J}
      → oc ≡ oc'
      → og ≡ og'
      → filled ≡ filled'
      → Entry oc' og' filled'
      → Entry oc og filled
  Entry-at {oc} {oc'} {og} {og'} {filled} {filled'} p q r h =
      subst (λ o. Entry o og filled) (sym p)
        (subst (λ o. Entry oc' o filled) (sym q) (subst (λ o. Entry oc' og' o) (sym r) h))

  -- The steps of the loop over the members.
  first_member :
      (key : String) (value : J) (c g r : Map String J)
      → compare_members compare_entry ((key, value) ∷ c) g ≡ done r
      → (entry : J) × (res : CompareResult J) × (find key g ≡ some entry)
        × (compare_entry value entry ≡ done res)
        × (compare_members compare_entry c (assign key res.resultobject g) ≡ done r)
  unfolding compare_members
  first_member key value c g r h = elim (Option-cases (find key g)) [
    | inl missing ↦ absurd (ground (arith, missing))
    | inr (entry, present) ↦
        let next : CompareResult J → Outcome (Map String J) =
          λ res. compare_members compare_entry c (assign key res.resultobject g) in
        let step : compare_members compare_entry ((key, value) ∷ c) g
            ≡ (compare_entry value entry >>= next) =
          rw (compare_members, present) refl in
        let (res, compared, rest) = bind_done (compare_entry value entry) next r (sym step ∙ h) in
        (entry, res, present, compared, rest)
  ]

  find-head :
      (k key : String) (v : J) (c : Map String J)
      → (k == key) ≡ true
      → find k ((key, v) ∷ c) ≡ some v
  unfolding find
  find-head k key v c hit = rw hit refl

  find-tail :
      (k key : String) (v : J) (c : Map String J)
      → (k == key) ≡ false
      → find k ((key, v) ∷ c) ≡ find k c
  unfolding find
  find-tail k key v c miss = rw miss refl

  find-assign_self : (key : String) (v : J) (g : Map String J) → find key (assign key v g) ≡ some v
  find-assign_self key v g = ground (arith, find-assign key key v g, beq_self key)

  find-assign_other :
      (k key : String) (v : J) (g : Map String J)
      → (k == key) ≡ false
      → find k (assign key v g) ≡ find k g
  find-assign_other k key v g miss = ground (arith, find-assign k key v g)

  pub compare_members-Entry :
      (c g r : Map String J)
      → IsSorted c
      → IsSorted g
      → compare_members compare_entry c g ≡ done r
      → IsSorted r × ((k : String) → Entry (find k c) (find k g) (find k r))
  unfolding compare_members
  compare_members-Entry [] g r s t h = (
    subst IsSorted (done_injective h) t,
    λ k. Entry-at (find-nil k) refl refl (ap (find k) (sym (done_injective h))),
  )
  compare_members-Entry ((key, value) ∷ c) g r s t h =
      let (entry, res, present, compared, rest) = first_member key value c g r h in
      let g' = assign key res.resultobject g in
      let (sorted, entries) =
        compare_members-Entry c g' r s.1 (assign-IsSorted key res.resultobject g t) rest in
      let here : find key r ≡ some res.resultobject =
        Entry-at (sym (find-After key c s.0)) refl refl (entries key)
        ∙ find-assign_self key res.resultobject g in
      (
        sorted,
        λ k. elim (Bool-cases (k == key)) [
          | inl hit ↦
              let same = ap (λ k. find k r) (beq_eq hit) in
              Entry-at (find-head k key value c hit) (ap (λ k. find k g) (beq_eq hit) ∙ present)
                (same ∙ here) (res, compared, refl)
          | inr miss ↦
              Entry-at (find-tail k key value c miss)
                (sym (find-assign_other k key res.resultobject g miss)) refl (entries k)
        ],
      )

  -- The step of the loop over the items.
  first_item :
      (x y : J) (c g r : List J)
      → compare_items compare_entry (x ∷ c) (y ∷ g) ≡ done r
      → (res : CompareResult J) × (rest : List J) × (compare_entry x y ≡ done res)
        × (compare_items compare_entry c g ≡ done rest)
        × (r ≡ res.resultobject ∷ rest)
  unfolding compare_items
  first_item x y c g r h =
      let (res, compared, more) =
        bind_done (compare_entry x y)
          (λ res. compare_items compare_entry c g >>= (λ rest. done (res.resultobject ∷ rest))) r
          h in
      let (rest, items, whole) =
        bind_done (compare_items compare_entry c g) (λ rest. done (res.resultobject ∷ rest)) r
          more in
      (res, rest, compared, items, sym (done_injective whole))

  -- Entries at every place of the rest, and at the first place.
  Entry-cons :
      (x y z : J) (c g r : List J)
      → Entry (some x) (some y) (some z)
      → ((i : ℕ) → Entry (get_elem? c i) (get_elem? g i) (get_elem? r i))
      → (i : ℕ) → Entry (get_elem? (x ∷ c) i) (get_elem? (y ∷ g) i) (get_elem? (z ∷ r) i)
  Entry-cons x y z c g r first rest zero = first
  Entry-cons x y z c g r first rest (suc i) = rest i

  pub compare_items-Entry :
      (c g r : List J)
      → length g ≡ length c
      → compare_items compare_entry c g ≡ done r
      → (length r ≡ length g) × ((i : ℕ) → Entry (get_elem? c i) (get_elem? g i) (get_elem? r i))
  unfolding compare_items
  compare_items-Entry [] g r e h =
      (ap length (sym (done_injective h)), λ i. ap (λ xs. get_elem? xs i) (sym (done_injective h)))
  compare_items-Entry (x ∷ c) [] r e h = absurd (omega arith)
  compare_items-Entry (x ∷ c) (y ∷ g) r e h =
      let (res, rest, compared, items, whole) = first_item x y c g r h in
      let (size, entries) = compare_items-Entry c g rest (omega arith) items in
      (
        ap length whole ∙ ap suc size,
        λ i.
            Entry-at refl refl (ap (λ r. get_elem? r i) whole)
              (Entry-cons x y res.resultobject c g rest (res, compared, refl) entries i),
      )
