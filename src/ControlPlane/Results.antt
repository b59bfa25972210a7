-- ===== src/ControlPlane/Results.antt =====
-- Commands.cpp: the dispatch of a result to the handler for its class. A MultiResult hands its members
-- on, one after the other.
use pfpsim.Common.{◌>>=◌, ℕ, Option, none, some, String}
use pfpsim.ControlPlane.Commands.{
  CommandResult, insert_result, modify_result, delete_result, failed_result, multi_result, Members,
  end, member, null_member,
}

-- A class that derives from ResultProcessor, by its handlers; `none` is an exception of a handler.
pub record ResultProcessor (P S : Type 0) : Type 0 where
  pub process_insert : P → ℕ → S → Option S
  pub process_modify : P → S → Option S
  pub process_delete : P → S → Option S
  pub process_failed : P → String → S → Option S

module _ {P S : Type 0} (rp : ResultProcessor P S) where
  -- `none` is also the call on a null member.
  unfoldable mutual
    pub accept_result : CommandResult P → S → Option S
    accept_result (insert_result command handle) s = rp.process_insert command handle s
    accept_result (modify_result command) s = rp.process_modify command s
    accept_result (delete_result command) s = rp.process_delete command s
    accept_result (failed_result command message) s = rp.process_failed command message s
    accept_result (multi_result results) s = accept_results results s

    pub accept_results : Members P → S → Option S
    accept_results end s = some s
    accept_results (member res results) s = accept_result res s >>= accept_results results
    accept_results (null_member results) s = none
