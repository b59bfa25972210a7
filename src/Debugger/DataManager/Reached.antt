-- ===== src/Debugger/DataManager/Reached.antt =====
-- States that the data manager's operations lead to.
use pfpsim.Common.{◌≡◌, refl, ap, ◌∙◌, some, List, [], ◌∷◌, ◌++◌, String, ℤ, or_else}
use pfpsim.Double.{Double}
use pfpsim.Debugger.DataManager.{DataManager, update_counter}
use pfpsim.Debugger.DataManager.Operations.{Operation, updates_counter, apply, run}

module _ {T I : Type 0} ⦃d : Double T⦄ where
  abbrev pub Reaches : DataManager T I → DataManager T I → Type 0
  Reaches m m' = (os : List (Operation T I)) × (run os m ≡ m')

  run-append :
      (os ps : List (Operation T I)) (m : DataManager T I) → run (os ++ ps) m ≡ run ps (run os m)
  unfolding run
  run-append [] ps m = refl
  run-append (o ∷ os) ps m = run-append os ps (apply o m)

  pub Reaches-refl : (m : DataManager T I) → Reaches m m
  unfolding run
  Reaches-refl m = ([], refl)

  pub Reaches-apply : (o : Operation T I) (m : DataManager T I) → Reaches m (apply o m)
  unfolding run
  Reaches-apply o m = (o ∷ [], refl)

  pub Reaches-trans : (m n o : DataManager T I) → Reaches m n → Reaches n o → Reaches m o
  Reaches-trans m n o (os, h) (ps, k) = (os ++ ps, run-append os ps m ∙ ap (run ps) h ∙ k)

  pub update_counter-Reaches :
      (name : String) (v : ℤ) (m m' : DataManager T I)
      → update_counter name v m ≡ some m'
      → Reaches m m'
  unfolding run apply
  update_counter-Reaches name v m m' h = (updates_counter name v ∷ [], ap (λ o. or_else o m) h)
