-- ===== src/Debugger/DataManager/Ignored.antt =====
-- The ignored modules as a set, and the removal of breakpoints and watchpoints.
use pfpsim.Common.{
  ◌≡◌, refl, true, false, ◌&&◌, List, [], ◌∷◌, String, arith, ◌==◌, string_eq, int_eq,
  if◌then◌else◌, Bool-cases, inl, inr, any, erase_first, Apart, erase_first_clears, any-append,
  any-erase_first_other, Apart-mono, refute,
}
use pfpsim.Debugger.DataManager.{
  DataManager, add_ignore_module, check_ignore_modules, remove_ignore_module,
}
use pfpsim.Debugger.DataManager.Points.{IsIrredundant, same_name}

any_name_same :
    (j k : String) (xs : List String) → j ≡ k → any (λ it. k == it) xs ≡ any (λ it. it == j) xs
unfolding any
any_name_same j k [] e = refl
any_name_same j k (x ∷ xs) e =
    ground (arith, any_name_same j k xs e, string_eq.equal_iff k x, string_eq.equal_iff x j)

both_named : (j : String) (x y : String) → ((x == j) && (y == j)) ≡ true → same_name x y ≡ true
both_named j x y h =
    ground (arith, string_eq.equal_iff x j, string_eq.equal_iff y j, string_eq.equal_iff y x)

erase_name :
    (j k : String) (xs : List String)
    → Apart same_name xs
    → any (λ it. it == j) (erase_first (λ it. it == k) xs)
      ≡ (if j == k then false else any (λ it. it == j) xs)
erase_name j k xs a = elim (Bool-cases (j == k)) [
  | inl e ↦
      rw (e, (string_eq.equal_iff j k).0 e)
        (erase_first_clears (λ it. it == k) xs
          (Apart-mono same_name (λ x y. (x == k) && (y == k)) xs (both_named k) a))
  | inr e ↦ rw e (
      any-erase_first_other (λ it. it == j) (λ it. it == k) xs
        (λ x h. refute (λ g.
          ground
            (arith, string_eq.equal_iff x k, string_eq.equal_iff x j, string_eq.equal_iff j k))))
]

module _ {T I : Type 0} where
  -- An ignored module is ignored until it is removed, and adding or removing one module changes the
  -- answer for no other.
  pub check_ignore_modules_laws :
      (j k : String) (m : DataManager T I)
      → IsIrredundant m
      → (check_ignore_modules j (add_ignore_module k m)
          ≡ (if j == k then true else check_ignore_modules j m))
        × (check_ignore_modules j (remove_ignore_module k m)
            ≡ (if j == k then false else check_ignore_modules j m))
  unfolding check_ignore_modules add_ignore_module remove_ignore_module
  check_ignore_modules_laws j k m v = (
    ground (
      arith,
      any-append (λ it. it == j) m.ignore_module_list k,
      any_name_same j k m.ignore_module_list,
      string_eq.equal_iff j k,
      string_eq.equal_iff k j,
    ),
    erase_name j k m.ignore_module_list v.ignored_apart,
  )
