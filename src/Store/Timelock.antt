-- ===== src/Store/Timelock.antt =====
-- internal/v1/db/client/timelock.go
use staking_api_service.Base.{String, List}
use staking_api_service.Types.States.{DelegationState, unbonded}
use staking_api_service.Model.{Uint64, TimeLockDocument}
use staking_api_service.Driver.{Driver, call}
use staking_api_service.Store.Access.{Client, command}
use staking_api_service.Store.Delegations.{transition_state}

unfoldable pub new_time_lock_document : String → Uint64 → String → TimeLockDocument
new_time_lock_document hash expire_height tx_type = record {
  staking_tx_hash_hex = hash;
  expire_height = expire_height;
  tx_type = tx_type;
}

module _ ⦃driver : Driver⦄ where
  open driver use {mongo}

  unfoldable pub save_time_lock_expire_check : String → Uint64 → String → Client driver (Unit {0})
  unfolding new_time_lock_document
  save_time_lock_expire_check hash expire_height tx_type = call (
      command (λ db.
        let document = new_time_lock_document hash expire_height tx_type in
        (tt, record db { timelock = mongo.timelock.insert_one document db.timelock })))

  unfoldable pub transition_to_unbonded_state :
      String → List DelegationState → Client driver (Unit {0})
  unfolding transition_state
  transition_to_unbonded_state hash eligible_previous_state =
      transition_state hash unbonded eligible_previous_state (λ d. d)
