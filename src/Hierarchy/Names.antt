-- ===== src/Hierarchy/Names.antt =====
-- PFPObject.cpp: qualified names.
use Prim.Native.String.{◌++◌ as ◌++s◌}
use pfpsim.Common.{
  bind_keeps, if_keeps, some_keeps, some_injective, subst, arith, ◌>>=◌, ◌≡◌, refl, ap, ◌∙◌, sym,
  some, List, [], ◌∷◌, ◌++◌, String, if◌then◌else◌, Bool-cases, Option-cases, inl, inr,
}
use pfpsim.Hierarchy.{
  Module, contains, module_hierarchy, joined_from, joined, reversed, after_first,
  fully_qualified_module_name,
}

joined_from-snoc :
    (text : String) (names : List String) (name : String)
    → joined_from text (names ++ name ∷ []) ≡ joined_from text names ++s "." ++s name
joined_from-snoc text [] name = refl
joined_from-snoc text (n ∷ names) name = joined_from-snoc (text ++s "." ++s n) names name

-- Two or more names.
abbrev IsLong : List String → Type 0
IsLong names =
    (first : String) × (second : String) × (rest : List String) × (names ≡ first ∷ second ∷ rest)

snoc-IsLong : (names : List String) (a b : String) → IsLong ((names ++ a ∷ []) ++ b ∷ [])
snoc-IsLong [] a b = (a, b, [], refl)
snoc-IsLong (n ∷ []) a b = (n, a, b ∷ [], refl)
snoc-IsLong (n ∷ k ∷ names) a b = (n, k, (names ++ a ∷ []) ++ b ∷ [], refl)

joined-snoc :
    (names : List String) (name : String)
    → IsLong names
    → joined (after_first (names ++ name ∷ [])) ≡ joined (after_first names) ++s "." ++s name
joined-snoc names name (first, second, rest, e) =
    ap (λ ns. joined (after_first (ns ++ name ∷ []))) e
    ∙ joined_from-snoc second rest name
    ∙ ap (λ ns. joined (after_first ns) ++s "." ++s name) (sym e)

module _ {J : Type 0} where
  -- A hierarchy has a first name.
  module_hierarchy-first :
      (modules : List (Module J)) (xs : List String)
      → module_hierarchy modules ≡ some xs
      → (x : String) × (ys : List String) × (xs ≡ x ∷ ys)
  unfolding module_hierarchy
  module_hierarchy-first [] xs h = absurd cc
  module_hierarchy-first (m ∷ parents) xs h =
      if_keeps First (contains m.module_name "top") (some (m.module_name ∷ []))
        (module_hierarchy parents >>= (λ r. some (m.module_name ∷ r)))
        (some_keeps First (m.module_name ∷ []) (m.module_name, [], refl))
        (bind_keeps First (module_hierarchy parents) (λ r. some (m.module_name ∷ r))
          (λ r xs e k. some_keeps First (m.module_name ∷ r) (m.module_name, r, refl) xs k))
        xs h
    where
      First : List String → Type 0
      First xs = (x : String) × (ys : List String) × (xs ≡ x ∷ ys)

  -- Where the parent of a module has a qualified name, the module's is: empty, if its own name
  -- contains "top"; its own name, if the name of the parent contains "top"; and else the parent's
  -- qualified name, a point, and its own name.
  pub fully_qualified_module_name_cases :
      (m p : Module J) (above : List (Module J)) (q : String)
      → fully_qualified_module_name (p ∷ above) ≡ some q
      → fully_qualified_module_name (m ∷ p ∷ above)
        ≡ some (
            if contains m.module_name "top"
            then ""
            else if contains p.module_name "top"
            then m.module_name
            else q ++s "." ++s m.module_name)
  unfolding fully_qualified_module_name module_hierarchy
  fully_qualified_module_name_cases m p above q h =
      elim (Bool-cases (contains m.module_name "top")) [
        | inl is_top ↦ rw is_top refl
        | inr below ↦ elim (Bool-cases (contains p.module_name "top")) [
          | inl under_top ↦ rw (below, under_top) refl
          | inr deep ↦ elim (Option-cases (module_hierarchy above)) [
            | inl e ↦ absurd (ground arith)
            | inr (xs, e) ↦
                let (x, ys, f) = module_hierarchy-first above xs e in
                let names = reversed xs ++ p.module_name ∷ [] in
                let long =
                  subst (λ xs. IsLong (reversed xs ++ p.module_name ∷ [])) (sym f)
                    (snoc-IsLong (reversed ys) x p.module_name) in
                let same : joined (after_first names) ≡ q =
                  some_injective (sym (rw (deep, e) refl) ∙ h) in
                rw (below, deep, e)
                  (ap some (
                    joined-snoc names m.module_name long
                    ∙ ap (λ q. q ++s "." ++s m.module_name) same))
          ]
        ]
      ]
