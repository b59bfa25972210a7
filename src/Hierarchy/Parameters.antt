-- ===== src/Hierarchy/Parameters.antt =====
-- PFPObject.cpp: where `GetParameter` finds a parameter.
use pfpsim.Common.{
  ◌≡◌, refl, Bool, true, false, List, [], ◌∷◌, String, ◌==◌, string_eq, if◌then◌else◌, Bool-cases,
  ◌⊎◌, inl, inr, arith,
}
use pfpsim.Hierarchy.{
  Searched, present, missing, throwing, Module, Lookup, found, null_value, throws, exits,
  get_parameter_from_parent, get_parameter,
}

module _ {J : Type 0} where
  -- Some module of the list is named "top".
  abbrev pub has_top : List (Module J) → Bool
  has_top [] = false
  has_top (m ∷ ms) = if m.module_name == "top" then true else has_top ms

  -- The first search that does not end with the null value, from the first module up to the first that is
  -- named "top".
  abbrev pub first_result : String → List (Module J) → Searched J
  first_result param [] = missing
  first_result param (m ∷ ms) = elim (m.local_search param) [
    | present result ↦ present result
    | throwing ↦ throwing
    | missing ↦ if m.module_name == "top" then missing else first_result param ms
  ]

  abbrev pub result_of : Lookup J → Searched J → Lookup J
  result_of failure (present j) = found j
  result_of failure throwing = throws
  result_of failure missing = failure

  Searched-cases : (s : Searched J) → ((j : J) × (s ≡ present j)) ⊎ ((s ≡ missing) ⊎ (s ≡ throwing))
  Searched-cases (present j) = inl (j, refl)
  Searched-cases missing = inr (inl refl)
  Searched-cases throwing = inr (inr refl)

  parent-first_result :
      (param : String) (ms : List (Module J))
      → has_top ms ≡ true
      → get_parameter_from_parent param ms ≡ result_of exits (first_result param ms)
  unfolding get_parameter_from_parent
  parent-first_result param [] h = absurd cc
  parent-first_result param (m ∷ ms) h = elim (Searched-cases (m.local_search param)) [
    | inl (j, e) ↦ rw (get_parameter_from_parent, e) refl
    | inr (inr e) ↦ rw (get_parameter_from_parent, e) refl
    | inr (inl e) ↦ elim (Bool-cases (m.module_name == "top")) [
      | inl is_top ↦ rw (get_parameter_from_parent, e, is_top) refl
      | inr below ↦
          rw (get_parameter_from_parent, e, below) (parent-first_result param ms (ground arith))
    ]
  ]

  -- Where a module or one of its parents is named "top", the look-up ends as the first search does that
  -- does not end with the null value, from the module up to the first so named: with its value, or by its
  -- exception. If there is none, the program ends, or a null value is given if the module is itself named
  -- "top".
  pub get_parameter-first_result :
      (param : String) (m : Module J) (parents : List (Module J))
      → has_top (m ∷ parents) ≡ true
      → get_parameter param (m ∷ parents)
        ≡ result_of
            (if m.module_name == "top" then null_value else exits)
            (first_result param (m ∷ parents))
  unfolding get_parameter
  get_parameter-first_result param m parents h = elim (Searched-cases (m.local_search param)) [
    | inl (j, e) ↦ rw (get_parameter, e) refl
    | inr (inr e) ↦ rw (get_parameter, e) refl
    | inr (inl e) ↦ elim (Bool-cases (m.module_name == "top")) [
      | inl is_top ↦ rw (get_parameter, e, is_top) refl
      | inr below ↦ rw (get_parameter, e, below) (parent-first_result param parents (ground arith))
    ]
  ]
