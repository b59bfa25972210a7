-- ===== src/ControlPlane/Flat.antt =====
-- Commands.cpp: a nested result is processed like the list of the plain results in it.
use pfpsim.Common.{
  ◌>>=◌, ℕ, ◌≡◌, refl, sym, ap, ◌∙◌, Option, none, some, List, [], ◌∷◌, ◌++◌, String,
}
use pfpsim.ControlPlane.Commands.{
  CommandResult, insert_result, modify_result, delete_result, failed_result, multi_result, Members,
  end, member, null_member,
}
use pfpsim.ControlPlane.Results.{ResultProcessor, accept_result, accept_results}

-- A result that is not made of others, or a null pointer in place of one.
pub data Plain (P : Type 0) : Type 0 where
  inserted : P → ℕ → Plain P
  modified deleted : P → Plain P
  failed : P → String → Plain P
  nothing : Plain P

module _ {P : Type 0} where
  mutual
    pub flatten : CommandResult P → List (Plain P)
    flatten (insert_result command handle) = inserted command handle ∷ []
    flatten (modify_result command) = modified command ∷ []
    flatten (delete_result command) = deleted command ∷ []
    flatten (failed_result command message) = failed command message ∷ []
    flatten (multi_result results) = flatten_members results

    flatten_members : Members P → List (Plain P)
    flatten_members end = []
    flatten_members (member res results) = flatten res ++ flatten_members results
    flatten_members (null_member results) = nothing ∷ flatten_members results

module _ {P S : Type 0} (rp : ResultProcessor P S) where
  -- The handler for a plain result.
  abbrev pub handle : Plain P → S → Option S
  handle (inserted command n) s = rp.process_insert command n s
  handle (modified command) s = rp.process_modify command s
  handle (deleted command) s = rp.process_delete command s
  handle (failed command message) s = rp.process_failed command message s
  handle nothing s = none

  -- The handlers for the plain results of a list, in order.
  abbrev pub handle_all : List (Plain P) → S → Option S
  handle_all [] s = some s
  handle_all (r ∷ rs) s = handle r s >>= handle_all rs

  handle_all-single : (o : Option S) → o ≡ (o >>= (λ s. some s))
  handle_all-single none = refl
  handle_all-single (some s) = refl

  bind_same : (o : Option S) (f g : S → Option S) → ((s : S) → f s ≡ g s) → (o >>= f) ≡ (o >>= g)
  bind_same none f g h = refl
  bind_same (some s) f g h = h s

  bind_assoc : (o : Option S) (f g : S → Option S) → (o >>= (λ s. f s >>= g)) ≡ ((o >>= f) >>= g)
  bind_assoc none f g = refl
  bind_assoc (some s) f g = refl

  handle_all-append :
      (rs ts : List (Plain P)) (s : S)
      → handle_all (rs ++ ts) s ≡ (handle_all rs s >>= handle_all ts)
  handle_all-append [] ts s = refl
  handle_all-append (r ∷ rs) ts s =
      bind_same (handle r s) (handle_all (rs ++ ts)) (λ t. handle_all rs t >>= handle_all ts)
        (handle_all-append rs ts)
      ∙ bind_assoc (handle r s) (handle_all rs) (handle_all ts)

  mutual
    unfolding accept_result flatten

    flatten-accept_result :
        (res : CommandResult P) (s : S) → accept_result rp res s ≡ handle_all (flatten res) s
    flatten-accept_result (insert_result command n) s = handle_all-single _
    flatten-accept_result (modify_result command) s = handle_all-single _
    flatten-accept_result (delete_result command) s = handle_all-single _
    flatten-accept_result (failed_result command message) s = handle_all-single _
    flatten-accept_result (multi_result results) s = flatten-accept_results results s

    flatten-accept_results :
        (results : Members P) (s : S)
        → accept_results rp results s ≡ handle_all (flatten_members results) s
    flatten-accept_results end s = refl
    flatten-accept_results (member res results) s =
        bind_same (accept_result rp res s) (accept_results rp results)
          (handle_all (flatten_members results)) (flatten-accept_results results)
        ∙ ap (λ o. o >>= handle_all (flatten_members results)) (flatten-accept_result res s)
        ∙ sym (handle_all-append (flatten res) (flatten_members results) s)
    flatten-accept_results (null_member results) s = refl

  -- However deep a result is nested, its processing calls the handlers for the plain results in it, each
  -- once and from left to right, and stops at the first null pointer or exception.
  pub accept_result_flat :
      (res : CommandResult P) (s : S) → accept_result rp res s ≡ handle_all (flatten res) s
  accept_result_flat = flatten-accept_result
