-- ===== src/Debugger/Watchpoint.antt =====
-- pfpsim/core/debugger/Watchpoint.cpp and Watchpoint.h.
use pfpsim.Common.{ℕ, suc, Bool, String, ℤ, pos}

pub record Watchpoint : Type 0 where
  pub disabled : Bool
  pub id : ℤ
  pub counter_name : String

-- `Watchpoint(name, dis)`, with the static `next_id` passed through.
unfoldable pub new : String → Bool → ℕ → Watchpoint × ℕ
new name dis next_id =
    (record { disabled = dis; id = pos next_id; counter_name = name }, suc next_id)
