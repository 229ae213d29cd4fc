-- ===== src/Service/Timelock.antt =====
-- internal/v1/service/timelock.go
use staking_api_service.Base.{String, if◌then◌else◌}
use staking_api_service.Base.Exec.{pure, fail, try}
use staking_api_service.Types.Errors.{
  not_found, is_not_found_error, new_error_with_msg, new_internal_service_error,
}
use staking_api_service.Types.Errors.Status
use staking_api_service.Types.States.{
  StakingTxType, tx_type_to_string, qualified_states_to_unbonded,
}
use staking_api_service.Model.{Uint64, add64}
use staking_api_service.Driver.{Driver}
use staking_api_service.Store.Timelock.{save_time_lock_expire_check, transition_to_unbonded_state}
use staking_api_service.Service.Delegations.{Service}

module _ ⦃driver : Driver⦄ where
  unfoldable pub process_expire_check :
      String → (start_height timelock : Uint64) → StakingTxType → Service driver (Unit {0})
  process_expire_check hash start_height timelock tx_type =
      try
        (save_time_lock_expire_check hash (add64 start_height timelock) (tx_type_to_string tx_type))
        (λ e. fail (new_internal_service_error e)) pure

  unfoldable pub transition_to_unbonded : StakingTxType → String → Service driver (Unit {0})
  transition_to_unbonded staking_type hash =
      try (transition_to_unbonded_state hash (qualified_states_to_unbonded staking_type))
        (λ e. fail (
          if is_not_found_error e
          then new_error_with_msg Status.forbidden not_found
              "delegation not found or no longer eligible to be unbonded after timelock expired"
          else new_internal_service_error e))
        pure
