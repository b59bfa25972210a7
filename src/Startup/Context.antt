-- ===== src/Startup/Context.antt =====
-- pfpsim/core/PFPContext.h and PFPContext.cpp: the one context, and the one top module in it. `create_top`
-- is generated, and a parameter, with the state of the world that it
-- changes; it does not ask for the context.
use pfpsim.Common.{◌≡◌, refl, Option, none, some}

-- A pointer that owns its object is an option.
pub record PfpContext (P : Type 0) : Type 0 where
  pub top_instance : Option P

-- `instance`, and the rest of the program's state.
pub record World (P W : Type 0) : Type 0 where
  pub instance_ptr : Option (PfpContext P)
  pub outside : W

module _ {P W : Type 0} where
  -- The reference that it returns is the `instance` after it.
  unfoldable pub get_current_context : World P W → PfpContext P × World P W
  get_current_context w = elim w.instance_ptr [
    | some context ↦ (context, w)
    | none ↦
        let context : PfpContext P = record { top_instance = none } in
        (context, record w { instance_ptr = some context })
  ]

  module _ (create_top : W → P × W) where
    -- On the context that `instance` is.
    unfoldable pub ensure_top_initialized : PfpContext P → World P W → World P W
    ensure_top_initialized context w = elim context.top_instance [
      | some top ↦ w
      | none ↦
          let made = create_top w.outside in
          record { instance_ptr = some (record { top_instance = some made.0 }); outside = made.1 }
    ]

    -- `PFPContext::get_current_context().ensure_top_initialized()`.
    unfoldable pub initialize_top : World P W → World P W
    initialize_top w =
        let current = get_current_context w in ensure_top_initialized current.0 current.1

    idempotent_at :
        (top : Option P) (o : W)
        → let w : World P W = record {
          instance_ptr = some (record { top_instance = top });
          outside = o;
        } in
          initialize_top (initialize_top w) ≡ initialize_top w
    unfolding initialize_top ensure_top_initialized get_current_context
    idempotent_at none o = refl
    idempotent_at (some top) o = refl

    idempotent_from :
        (i : Option (PfpContext P)) (o : W)
        → let w : World P W = record { instance_ptr = i; outside = o } in
          initialize_top (initialize_top w) ≡ initialize_top w
    unfolding initialize_top ensure_top_initialized get_current_context
    idempotent_from none o = refl
    idempotent_from (some context) o = idempotent_at context.top_instance o

    -- The top module is made at the first call, and later ones change nothing.
    pub initialize_top_idempotent :
        (w : World P W) → initialize_top (initialize_top w) ≡ initialize_top w
    initialize_top_idempotent w = idempotent_from w.instance_ptr w.outside
