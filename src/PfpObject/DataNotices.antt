-- ===== src/PfpObject/DataNotices.antt =====
-- pfpsim/core/PFPObject.h: what a module queues for its observers about the data that it writes, reads
-- and drops.
use pfpsim.Common.{◌>>=◌, ◌≡◌, refl, Option, some, List, [], ◌∷◌, String, map}
use pfpsim.PfpObject.{PfpObject}

-- A call of an observer's method, with the module's qualified name, the data, the reason of a drop, and
-- the simulation time.
pub data DataCall (O D T : Type 0) : Type 0 where
  data_written : O → String → D → T → DataCall O D T
  data_read : O → String → D → T → DataCall O D T
  data_dropped : O → String → D → String → T → DataCall O D T

-- The loop over the observers. `name` is `fully_qualified_module_name()`, which is asked for each
-- observer; `none` is its use of a null pointer.
unfoldable pub queue_each :
    {O C : Type 0} → (O → String → C) → Option String → List O → Option (List C)
queue_each call name [] = some []
queue_each call name (observer ∷ observers) = do
  n ← name
  rest ← queue_each call name observers
  some (call observer n ∷ rest)

module _ {O D T : Type 0} where
  unfoldable pub notify_data_written :
      Option String → D → T → PfpObject O → Option (List (DataCall O D T))
  notify_data_written name packet sim_time p =
      queue_each (λ o n. data_written o n packet sim_time) name p.observers

  unfoldable pub notify_data_read :
      Option String → D → T → PfpObject O → Option (List (DataCall O D T))
  notify_data_read name packet sim_time p =
      queue_each (λ o n. data_read o n packet sim_time) name p.observers

  unfoldable pub notify_data_dropped :
      Option String → D → String → T → PfpObject O → Option (List (DataCall O D T))
  notify_data_dropped name packet drop_reason sim_time p =
      queue_each (λ o n. data_dropped o n packet drop_reason sim_time) name p.observers

  -- `now` is `sc_time_stamp().to_default_time_units()`.
  unfoldable pub drop_data :
      T → Option String → D → String → PfpObject O → Option (List (DataCall O D T))
  drop_data now name packet drop_reason p = notify_data_dropped name packet drop_reason now p

-- Where the module has a qualified name, every observer gets its call.
pub queue_each-map :
    {O C : Type 0} (call : O → String → C) (name : String) (observers : List O)
    → queue_each call (some name) observers ≡ some (map (λ o. call o name) observers)
unfolding queue_each
queue_each-map call name [] = refl
queue_each-map call name (o ∷ os) = rw (queue_each-map call name os) refl
