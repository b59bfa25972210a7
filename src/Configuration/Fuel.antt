-- ===== src/Configuration/Fuel.antt =====
-- ConfigurationParameters.cpp: the recursion of `CompareStructure` ends.
use pfpsim.Common.{
  ℕ, zero, suc, ◌<◌, ◌≡◌, refl, List, [], ◌∷◌, String, ◌==◌, nat_eq, string_eq, length, arith, Has,
  inl, inr, Option-cases, Bool-cases,
}
use pfpsim.KeyOrder.{string_order}
use pfpsim.OrderedMap.{Map, find, assign}
use pfpsim.Configuration.Outcomes.{Agree, bind-Agree, if-Agree}
use pfpsim.Configuration.{
  Shape, object, array, primitive, Json, Compare, compare_members, compare_items, compare_shapes,
  compare_structure, match_and_fill,
}

-- The entries of a value are less deep than the value.
pub record Depth {J : Type 0} (json : Json J) : Type 0 where
  pub depth : J → ℕ
  pub depth_member :
      (j : J) (m : Map String J) (k : String) (v : J)
      → json.shape j ≡ object m
      → Has (k, v) m
      → depth v < depth j
  pub depth_item :
      (j : J) (xs : List J) (x : J) → json.shape j ≡ array xs → Has x xs → depth x < depth j

module _ {J : Type 0} where
  -- The entries of the shape.
  abbrev Below : Shape J → J → Type 0
  Below (object m) v = (k : String) × Has (k, v) m
  Below (array xs) v = Has v xs
  Below _ v = ⊥

module _ {J : Type 0} (f g : Compare J) where
  compare_members-Agree :
      (c n : Map String J)
      → ((k : String) (v : J) → Has (k, v) c → (b : J) → Agree (f v b) (g v b))
      → Agree (compare_members f c n) (compare_members g c n)
  unfolding compare_members
  compare_members-Agree [] n all = (refl, λ e. cc)
  compare_members-Agree ((key, value) ∷ c) n all = elim (Option-cases (find key n)) [
    | inl missing ↦ rw (compare_members, missing) (refl, λ e. cc)
    | inr (entry, present) ↦
        rw (compare_members, present)
          (bind-Agree (f value entry) (g value entry) _ _ (all key value (inl refl) entry) (λ res.
            compare_members-Agree c (assign key res.resultobject n) (λ k v h. all k v (inr h))))
  ]

  compare_items-Agree :
      (c n : List J)
      → ((x : J) → Has x c → (b : J) → Agree (f x b) (g x b))
      → Agree (compare_items f c n) (compare_items g c n)
  unfolding compare_items
  compare_items-Agree [] n all = (refl, λ e. cc)
  compare_items-Agree (x ∷ c) [] all = (refl, λ e. cc)
  compare_items-Agree (x ∷ c) (y ∷ n) all =
      bind-Agree (f x y) (g x y) _ _ (all x (inl refl) y) (λ res.
        bind-Agree (compare_items f c n) (compare_items g c n) _ _
          (compare_items-Agree c n (λ x h. all x (inr h))) (λ rest. (refl, λ e. cc)))

  module _ (json : Json J) where
    compare_shapes-Agree :
        (c n : J) (sc sn : Shape J)
        → ((v : J) → Below sc v → (b : J) → Agree (f v b) (g v b))
        → Agree (compare_shapes json f c n sc sn) (compare_shapes json g c n sc sn)
    unfolding compare_shapes
    compare_shapes-Agree c n (object m) (object k) all =
        bind-Agree (compare_members f m k) (compare_members g m k) _ _
          (compare_members-Agree m k (λ k v h. all v (k, h))) (λ filled. (refl, λ e. cc))
    compare_shapes-Agree c n (array xs) (array ys) all =
        elim (Bool-cases (length ys == length xs)) [
          | inr differ ↦ rw (compare_shapes, differ) (refl, λ e. cc)
          | inl sizes ↦
              rw (compare_shapes, sizes)
                (bind-Agree (compare_items f xs ys) (compare_items g xs ys) _ _
                  (compare_items-Agree xs ys all) (λ filled. (refl, λ e. cc)))
        ]
    compare_shapes-Agree c n (primitive t) (primitive u) all = (refl, λ e. ground (arith, e))
    compare_shapes-Agree c n _ _ all = (refl, λ e. cc)

module _ {J : Type 0} (json : Json J) (depths : Depth json) where
  shape-Below :
      (j : J) (s : Shape J) (v : J) → json.shape j ≡ s → Below s v → depths.depth v < depths.depth j
  shape-Below j (object m) v p (k, h) = depths.depth_member j m k v p h
  shape-Below j (array xs) v p h = depths.depth_item j xs v p h
  shape-Below j _ v p h = absurd h

  compare_structure-Agree :
      (m n : ℕ) (compare golden : J)
      → depths.depth compare < m
      → depths.depth compare < n
      → Agree (compare_structure json m compare golden) (compare_structure json n compare golden)
  unfolding compare_structure
  compare_structure-Agree zero n c g h k = absurd (omega arith)
  compare_structure-Agree (suc m) zero c g h k = absurd (omega arith)
  compare_structure-Agree (suc m) (suc n) c g h k =
      compare_shapes-Agree (compare_structure json m) (compare_structure json n) json c g _ _
        (λ v below b.
          let less = shape-Below c (json.shape c) v refl below in
          compare_structure-Agree m n v b (omega arith) (omega arith))

  -- Where the entries of a value are less deep than it and the fuel is above the depth of the instance's
  -- value, the filling ends, and it ends in the same way however much fuel there is.
  pub match_and_fill-Agree :
      (m n : ℕ) (parameters matchagainst : J)
      → depths.depth matchagainst < m
      → depths.depth matchagainst < n
      → Agree
          (match_and_fill json m parameters matchagainst)
          (match_and_fill json n parameters matchagainst)
  unfolding match_and_fill
  match_and_fill-Agree m n g c h k =
      bind-Agree (compare_structure json m c g) (compare_structure json n c g) _ _
        (compare_structure-Agree m n c g h k)
        (λ res. if-Agree res.result _ _ (refl, λ e. cc) (refl, λ e. cc))
