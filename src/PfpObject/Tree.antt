-- ===== src/PfpObject/Tree.antt =====
-- PFPObject.cpp and PFPObject.h: modules with their child modules, and what an attached observer hears.
use pfpsim.Common.{
  ℕ, ◌≡◌, refl, ap, ◌∙◌, Option, none, some, List, [], ◌∷◌, ◌++◌, String, map, ◌==◌, string_eq,
  if◌then◌else◌, arith, Bool-cases, inl, inr,
}
use pfpsim.KeyOrder.{string_order}
use pfpsim.PfpObject.DataNotices.{
  data_written, data_read, data_dropped, notify_data_written, notify_data_read, notify_data_dropped,
  queue_each-map,
}
use pfpsim.PfpObject.{
  PfpObject, counter_updated, counter_added, counter_removed, notify_counter_changed,
  notify_counter_added, notify_counter_removed,
}

-- A module and `childModules_`, by name. Each module stands at one place.
mutual
  pub data ModuleTree (O : Type 0) : Type 0 where
    node : PfpObject O → Children O → ModuleTree O

  pub data Children (O : Type 0) : Type 0 where
    end : Children O
    child : String → ModuleTree O → Children O → Children O

map-snoc :
    {A B : Type 0} (f : A → B) (xs : List A) (x : A) → map f (xs ++ x ∷ []) ≡ map f xs ++ f x ∷ []
map-snoc f [] x = refl
map-snoc f (y ∷ ys) x = ap (λ zs. f y ∷ zs) (map-snoc f ys x)

module _ {O : Type 0} where
  -- `observers_.push_back(observer)`.
  unfoldable pub with_observer : O → PfpObject O → PfpObject O
  with_observer observer p = record p { observers = p.observers ++ observer ∷ [] }

  unfoldable mutual
    pub attach_observer : O → ModuleTree O → ModuleTree O
    attach_observer observer (node p children) =
        node (with_observer observer p) (attach_to_children observer children)

    pub attach_to_children : O → Children O → Children O
    attach_to_children observer end = end
    attach_to_children observer (child name m children) =
        child name (attach_observer observer m) (attach_to_children observer children)

  -- The module to which a path of names leads.
  unfoldable mutual
    pub module_at : List String → ModuleTree O → Option (PfpObject O)
    module_at [] (node p children) = some p
    module_at (name ∷ path) (node p children) = child_at name path children

    pub child_at : String → List String → Children O → Option (PfpObject O)
    child_at name path end = none
    child_at name path (child key m children) =
        let here = module_at path m in
        let later = child_at name path children in if name == key then here else later

  -- `childModules_[module_name] = module`: a child of the name is replaced, and a new one stands in the
  -- order of the names.
  unfoldable pub add_to_children : String → ModuleTree O → Children O → Children O
  add_to_children name m end = child name m end
  add_to_children name m (child key c children) =
      let rest = add_to_children name m children in
      if name == key
      then child name m children
      else if string_order.before name key
      then child name m (child key c children)
      else child key c rest

  unfoldable pub add_child_module : String → ModuleTree O → ModuleTree O → ModuleTree O
  add_child_module name m (node p children) = node p (add_to_children name m children)

  map_option : (PfpObject O → PfpObject O) → Option (PfpObject O) → Option (PfpObject O)
  map_option f none = none
  map_option f (some p) = some (f p)

  mutual
    unfolding attach_observer module_at map_option

    module_at-attach_observer :
        (observer : O) (path : List String) (m : ModuleTree O)
        → module_at path (attach_observer observer m)
          ≡ map_option (with_observer observer) (module_at path m)
    module_at-attach_observer observer [] (node p children) = refl
    module_at-attach_observer observer (name ∷ path) (node p children) =
        child_at-attach_to_children observer name path children

    child_at-attach_to_children :
        (observer : O) (name : String) (path : List String) (children : Children O)
        → child_at name path (attach_to_children observer children)
          ≡ map_option (with_observer observer) (child_at name path children)
    child_at-attach_to_children observer name path end = refl
    child_at-attach_to_children observer name path (child key m children) =
        elim (Bool-cases (name == key)) [
          | inl hit ↦ rw hit (module_at-attach_observer observer path m)
          | inr miss ↦ rw miss (child_at-attach_to_children observer name path children)
        ]

  child_at-add_to_children :
      (name other : String) (path : List String) (m : ModuleTree O) (children : Children O)
      → child_at other path (add_to_children name m children)
        ≡ (if other == name then module_at path m else child_at other path children)
  unfolding add_to_children module_at
  child_at-add_to_children name other path m end = refl
  child_at-add_to_children name other path m (child key c children) = ground (
    arith,
    string_eq.equal_iff name key,
    string_eq.equal_iff other name,
    string_eq.equal_iff other key,
    child_at-add_to_children name other path m children,
  )

  -- A path that starts with the name of an added module leads into that module, any other leads to where
  -- it led before.
  pub module_at-add_child_module :
      (name other : String) (path : List String) (m parent : ModuleTree O)
      → module_at (other ∷ path) (add_child_module name m parent)
        ≡ (if other == name then module_at path m else module_at (other ∷ path) parent)
  unfolding add_child_module module_at
  module_at-add_child_module name other path m (node p children) =
      child_at-add_to_children name other path m children

  -- For a module at any depth below the one that an observer is attached to: the calls that a change, an
  -- addition or a removal of a counter makes or queues are then those of before, in the same order, and
  -- after them one to that observer.
  pub attach_observer_hears :
      {T : Type 0} (observer : O) (path : List String) (m : ModuleTree O) (p : PfpObject O)
      (counter_name : String) (counter_value : ℕ) (sim_time : T)
      → module_at path m ≡ some p
      → (q : PfpObject O) × (module_at path (attach_observer observer m) ≡ some q)
        × (notify_counter_changed counter_name counter_value sim_time q
            ≡ notify_counter_changed counter_name counter_value sim_time p
              ++ counter_updated observer p.module_name counter_name counter_value sim_time ∷ [])
        × (notify_counter_added counter_name sim_time q
            ≡ notify_counter_added counter_name sim_time p
              ++ counter_added observer p.module_name counter_name sim_time ∷ [])
        × (notify_counter_removed counter_name sim_time q
            ≡ notify_counter_removed counter_name sim_time p
              ++ counter_removed observer p.module_name counter_name sim_time ∷ [])
  unfolding notify_counter_changed notify_counter_added notify_counter_removed with_observer
      map_option
  attach_observer_hears observer path m p name v t h = (
    with_observer observer p,
    module_at-attach_observer observer path m ∙ ap (map_option (with_observer observer)) h,
    map-snoc _ p.observers observer,
    map-snoc _ p.observers observer,
    map-snoc _ p.observers observer,
  )

  -- Its data that is written, read or dropped is told to the observer too, after the others, where the
  -- module has a qualified name.
  pub attach_observer_hears_data :
      {D T : Type 0} (observer : O) (p : PfpObject O) (name : String) (packet : D) (reason : String)
      (sim_time : T)
      → let q = with_observer observer p in
        (notify_data_written (some name) packet sim_time q
          ≡ some (
              map (λ o. data_written o name packet sim_time) p.observers
              ++ data_written observer name packet sim_time ∷ []))
        × (notify_data_read (some name) packet sim_time q
            ≡ some (
                map (λ o. data_read o name packet sim_time) p.observers
                ++ data_read observer name packet sim_time ∷ []))
        × (notify_data_dropped (some name) packet reason sim_time q
            ≡ some (
                map (λ o. data_dropped o name packet reason sim_time) p.observers
                ++ data_dropped observer name packet reason sim_time ∷ []))
  unfolding notify_data_written notify_data_read notify_data_dropped with_observer
  attach_observer_hears_data observer p name packet reason t = (
    queue_each-map _ name _ ∙ ap some (map-snoc _ p.observers observer),
    queue_each-map _ name _ ∙ ap some (map-snoc _ p.observers observer),
    queue_each-map _ name _ ∙ ap some (map-snoc _ p.observers observer),
  )
