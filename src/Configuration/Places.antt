-- ===== src/Configuration/Places.antt =====
-- ConfigurationParameters.cpp: the filled configuration has the places of the base configuration, and
-- the values of the instance.
use pfpsim.Common.{
  ◌>>=◌, ℕ, zero, suc, ◌≡◌, refl, sym, ap, ◌∙◌, List, [], ◌∷◌, Option, none, some, String,
  if◌then◌else◌, ◌==◌, string_eq, nat_eq, beq_eq, length, get_elem?, arith, Bool-cases, inl, inr,
  subst,
}
use mathlib.Core.Logic.{if_pos}
use pfpsim.KeyOrder.{string_order}
use pfpsim.OrderedMap.{Map, find}
use pfpsim.Configuration.{
  PrimitiveType, PrimitiveType-discrete, Shape, object, array, primitive, discarded, Json, Outcome,
  done, error, CompareResult, matched, Compare, compare_members, compare_items, compare_shapes,
  compare_structure, match_and_fill,
}
use pfpsim.Configuration.Outcomes.{done_injective, bind_done}
use pfpsim.Configuration.Filled.{JsonLaws, Entry, compare_members-Entry, compare_items-Entry}

-- A key of an object or a position in an array.
pub data Step : Type 0 where
  key : String → Step
  index : ℕ → Step

-- What stays of a value without its entries.
pub data Kind : Type 0 where
  an_object discarded_kind : Kind
  an_array : ℕ → Kind
  a_primitive : PrimitiveType → Kind

module _ {J : Type 0} where
  abbrev pub kind : Shape J → Kind
  kind (object m) = an_object
  kind (array xs) = an_array (length xs)
  kind (primitive t) = a_primitive t
  kind discarded = discarded_kind

  abbrev pub child : Shape J → Step → Option J
  child (object m) (key k) = find k m
  child (array xs) (index i) = get_elem? xs i
  child _ _ = none

  abbrev pub IsPrimitive : Shape J → Type 0
  IsPrimitive (primitive t) = Unit {0}
  IsPrimitive _ = ⊥

module _ {J : Type 0} (compare_entry : Compare J) where
  object_entries :
      (c g r : Map String J)
      → ((k : String) → Entry compare_entry (find k c) (find k g) (find k r))
      → (s : Step)
      → Entry compare_entry (child (object c) s) (child (object g) s) (child (object r) s)
  object_entries c g r entries (key k) = entries k
  object_entries c g r entries (index i) = refl

  array_entries :
      (c g r : List J)
      → ((i : ℕ) → Entry compare_entry (get_elem? c i) (get_elem? g i) (get_elem? r i))
      → (s : Step) → Entry compare_entry (child (array c) s) (child (array g) s) (child (array r) s)
  array_entries c g r entries (key k) = refl
  array_entries c g r entries (index i) = entries i

module _ {J : Type 0} (json : Json J) where
  -- The value at a place, given by the steps that lead to it.
  unfoldable pub value_at : List Step → J → Option J
  value_at [] j = some j
  value_at (s ∷ steps) j = child (json.shape j) s >>= value_at steps

  unfoldable pub kind_at : List Step → J → Option Kind
  kind_at [] j = some (kind (json.shape j))
  kind_at (s ∷ steps) j = child (json.shape j) s >>= kind_at steps

  -- What stands at a place where `compare` has a value `a` of the given shape and `golden` has `b`.
  abbrev pub Chosen : Shape J → J → J → Option J → Type 0
  Chosen (primitive t) a b filled = filled ≡ some (if json.equal b a then b else a)
  Chosen _ a b filled = (j : J) × (filled ≡ some j)

  abbrev pub Settled : Option J → Option J → Option J → Type 0
  Settled none golden filled = filled ≡ golden
  Settled (some a) golden filled = (b : J) × (golden ≡ some b) × Chosen (json.shape a) a b filled

  -- What a comparison has done with the values `c` and `g` of the shapes `sc` and `sg`, to give `r` of
  -- the shape `sr`.
  abbrev Compared : Compare J → J → J → J → Shape J → Shape J → Shape J → Type 0
  Compared compare_entry c g r sc sg sr =
      (kind sr ≡ kind sg)
      × (IsPrimitive sc → r ≡ (if json.equal g c then g else c))
      × ((s : Step) → Entry compare_entry (child sc s) (child sg s) (child sr s))

  given :
      (o : Outcome (CompareResult J)) (j : J) (r : CompareResult J)
      → o ≡ done (matched j)
      → o ≡ done r
      → j ≡ r.resultobject
  given o j r p q = ap (λ r. r.resultobject) (done_injective (sym p ∙ q))

  primitives-Compared :
      (compare_entry : Compare J) (c g : J) (r : CompareResult J) (t u : PrimitiveType)
      → json.shape c ≡ primitive t
      → json.shape g ≡ primitive u
      → compare_shapes json compare_entry c g (primitive t) (primitive u) ≡ done r
      → Compared compare_entry c g r.resultobject
          (primitive t)
          (primitive u)
          (json.shape r.resultobject)
  unfolding compare_shapes
  primitives-Compared ce c g r t u p q h = elim (PrimitiveType-discrete u t) [
    | no n ↦ absurd (ground (arith, n))
    | yes same ↦ elim (Bool-cases (json.equal g c)) [
      | inl equal ↦
          let is : g ≡ r.resultobject =
            given (compare_shapes json ce c g (primitive t) (primitive u)) g r
              (rw (compare_shapes, if_pos _ same, equal) refl) h in
          let shape = ap json.shape (sym is) ∙ q in
          subst (Compared ce c g r.resultobject (primitive t) (primitive u)) (sym shape)
            (refl, (λ _. sym is ∙ rw equal refl), (λ s. refl))
      | inr other ↦
          let is : c ≡ r.resultobject =
            given (compare_shapes json ce c g (primitive t) (primitive u)) c r
              (rw (compare_shapes, if_pos _ same, other) refl) h in
          let shape = ap json.shape (sym is) ∙ p in
          subst (Compared ce c g r.resultobject (primitive t) (primitive u)) (sym shape)
            (ap a_primitive (sym same), (λ _. sym is ∙ rw other refl), (λ s. refl))
    ]
  ]

  module _ (laws : JsonLaws json) where
    compare_shapes-Compared :
        (compare_entry : Compare J) (c g : J) (r : CompareResult J) (sc sg : Shape J)
        → json.shape c ≡ sc
        → json.shape g ≡ sg
        → compare_shapes json compare_entry c g sc sg ≡ done r
        → Compared compare_entry c g r.resultobject sc sg (json.shape r.resultobject)
    unfolding compare_shapes
    compare_shapes-Compared ce c g r (object m) (object n) p q h =
        let (filled, members, whole) =
          bind_done (compare_members ce m n) (λ filled. done (matched (json.object_of filled))) r
            h in
        let (sorted, entries) =
          compare_members-Entry ce m n filled (laws.members_IsSorted c m p)
            (laws.members_IsSorted g n q) members in
        let shape =
          ap (λ r. json.shape r.resultobject) (sym (done_injective whole))
          ∙ laws.shape-object_of filled sorted in
        subst (Compared ce c g r.resultobject (object m) (object n)) (sym shape)
          (refl, (λ b. absurd b), object_entries ce m n filled entries)
    compare_shapes-Compared ce c g r (array xs) (array ys) p q h =
        elim (Bool-cases (length ys == length xs)) [
          | inr differ ↦ absurd (ground (arith, differ))
          | inl sizes ↦
              let (filled, items, whole) =
                bind_done (compare_items ce xs ys) (λ filled. done (matched (json.array_of filled)))
                  r (sym (rw (compare_shapes, sizes) refl) ∙ h) in
              let (size, entries) = compare_items-Entry ce xs ys filled (beq_eq sizes) items in
              let shape =
                ap (λ r. json.shape r.resultobject) (sym (done_injective whole))
                ∙ laws.shape-array_of filled in
              subst (Compared ce c g r.resultobject (array xs) (array ys)) (sym shape)
                (ap an_array size, (λ b. absurd b), array_entries ce xs ys filled entries)
        ]
    compare_shapes-Compared ce c g r (primitive t) (primitive u) p q h =
        primitives-Compared ce c g r t u p q h
    compare_shapes-Compared ce c g r _ _ p q h = absurd cc

    -- From the entries at a step to the places beyond them.
    Entry-kind_at :
        (compare_entry : Compare J) (steps : List Step)
        → ((a b : J) (r : CompareResult J)
            → compare_entry a b ≡ done r
            → kind_at steps r.resultobject ≡ kind_at steps b)
        → (oc og filled : Option J) → Entry compare_entry oc og filled
        → (filled >>= kind_at steps) ≡ (og >>= kind_at steps)
    Entry-kind_at ce steps below none og filled e = ap (λ o. o >>= kind_at steps) e
    Entry-kind_at ce steps below (some a) none filled e = absurd e
    Entry-kind_at ce steps below (some a) (some b) filled (r, compared, e) =
        ap (λ o. o >>= kind_at steps) e ∙ below a b r compared

    compare_structure-kind_at :
        (fuel : ℕ) (compare golden : J) (r : CompareResult J)
        → compare_structure json fuel compare golden ≡ done r
        → (steps : List Step) → kind_at steps r.resultobject ≡ kind_at steps golden
    unfolding compare_structure kind_at
    compare_structure-kind_at zero c g r h steps = absurd cc
    compare_structure-kind_at (suc fuel) c g r h [] =
        let (kinds, _, _) =
          compare_shapes-Compared (compare_structure json fuel) c g r _ _ refl refl h in
        ap some kinds
    compare_structure-kind_at (suc fuel) c g r h (s ∷ steps) =
        let (_, _, entries) =
          compare_shapes-Compared (compare_structure json fuel) c g r _ _ refl refl h in
        Entry-kind_at (compare_structure json fuel) steps
          (λ a b r e. compare_structure-kind_at fuel a b r e steps) _ _ _ (entries s)

    all-Chosen :
        (sa : Shape J) (a b r : J)
        → (IsPrimitive sa → r ≡ (if json.equal b a then b else a))
        → Chosen sa a b (some r)
    all-Chosen (primitive t) a b r h = ap some (h tt)
    all-Chosen (object m) a b r h = (r, refl)
    all-Chosen (array xs) a b r h = (r, refl)
    all-Chosen discarded a b r h = (r, refl)

    Entry-Settled :
        (compare_entry : Compare J) (steps : List Step)
        → ((a b : J) (r : CompareResult J)
            → compare_entry a b ≡ done r
            → Settled (value_at steps a) (value_at steps b) (value_at steps r.resultobject))
        → (oc og filled : Option J) → Entry compare_entry oc og filled
        → Settled (oc >>= value_at steps) (og >>= value_at steps) (filled >>= value_at steps)
    Entry-Settled ce steps below none og filled e = ap (λ o. o >>= value_at steps) e
    Entry-Settled ce steps below (some a) none filled e = absurd e
    Entry-Settled ce steps below (some a) (some b) filled (r, compared, e) =
        subst (λ o. Settled (value_at steps a) (value_at steps b) (o >>= value_at steps)) (sym e)
          (below a b r compared)

    compare_structure-value_at :
        (fuel : ℕ) (compare golden : J) (r : CompareResult J)
        → compare_structure json fuel compare golden ≡ done r
        → (steps : List Step)
        → Settled (value_at steps compare) (value_at steps golden) (value_at steps r.resultobject)
    unfolding compare_structure value_at
    compare_structure-value_at zero c g r h steps = absurd cc
    compare_structure-value_at (suc fuel) c g r h [] =
        let (_, value, _) =
          compare_shapes-Compared (compare_structure json fuel) c g r _ _ refl refl h in
        (g, refl, all-Chosen _ c g r.resultobject value)
    compare_structure-value_at (suc fuel) c g r h (s ∷ steps) =
        let (_, _, entries) =
          compare_shapes-Compared (compare_structure json fuel) c g r _ _ refl refl h in
        Entry-Settled (compare_structure json fuel) steps
          (λ a b r e. compare_structure-value_at fuel a b r e steps) _ _ _ (entries s)

    flagged_result :
        (r : CompareResult J) (message : String) (j : J)
        → (if r.result then done r.resultobject else error message) ≡ done j
        → r.resultobject ≡ j
    flagged_result r message j h = elim (Bool-cases r.result) [
      | inl yes_flag ↦ done_injective (sym (rw yes_flag refl) ∙ h)
      | inr no_flag ↦ absurd (ground (arith, no_flag))
    ]

    match_and_fill_result :
        (fuel : ℕ) (parameters matchagainst j : J)
        → match_and_fill json fuel parameters matchagainst ≡ done j
        → (r : CompareResult J) × (compare_structure json fuel matchagainst parameters ≡ done r)
          × (r.resultobject ≡ j)
    unfolding match_and_fill
    match_and_fill_result fuel g c j h =
        let (r, compared, flagged) = bind_done (compare_structure json fuel c g) _ j h in
        (r, compared, flagged_result r _ j flagged)

    -- Where an instance's values can be filled in, the result has a place exactly where the base
    -- configuration has, and what is there is of the same kind: an object, an array of the same length,
    -- or a primitive value of the same type.
    pub match_and_fill-kind_at :
        (fuel : ℕ) (parameters matchagainst j : J)
        → match_and_fill json fuel parameters matchagainst ≡ done j
        → (steps : List Step) → kind_at steps j ≡ kind_at steps parameters
    match_and_fill-kind_at fuel g c j h steps =
        let (r, compared, is) = match_and_fill_result fuel g c j h in
        ap (kind_at steps) (sym is) ∙ compare_structure-kind_at fuel c g r compared steps

    -- For a library that keeps its promises: where an instance's values can be filled in, a place that the
    -- instance does not have stays as in the base configuration. A place that it has is one of the base configuration and of the result,
    -- and a primitive value there is the instance's, unless the base configuration's is equal to it.
    pub match_and_fill-value_at :
        (fuel : ℕ) (parameters matchagainst j : J)
        → match_and_fill json fuel parameters matchagainst ≡ done j
        → (steps : List Step)
        → Settled (value_at steps matchagainst) (value_at steps parameters) (value_at steps j)
    match_and_fill-value_at fuel g c j h steps =
        let (r, compared, is) = match_and_fill_result fuel g c j h in
        subst (λ j. Settled (value_at steps c) (value_at steps g) (value_at steps j)) is
          (compare_structure-value_at fuel c g r compared steps)
