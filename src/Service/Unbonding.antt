-- ===== src/Service/Unbonding.antt =====
-- internal/v1/service/unbonding.go and withdrawn.go
use staking_api_service.Base.{String, Option, none, some, if◌then◌else◌}
use staking_api_service.Base.Exec.{pure, fail, lift, try, ◌>>◌, Result, ok, err}
use staking_api_service.Types.Errors.{
  GoError, Error, not_found, forbidden, validation_error, internal_service_error,
  is_duplicate_key_error, is_not_found_error, new_error, new_error_with_msg,
}
use staking_api_service.Types.Errors.Status
use staking_api_service.Types.States.{active, state_eq}
use staking_api_service.Model.{Uint64, Int64, DelegationDocument}
use staking_api_service.Driver.{Driver}
use staking_api_service.Store.Delegations.{find_delegation_by_tx_hash_hex}
use staking_api_service.Store.Unbonding.{
  save_unbonding_tx, transition_to_unbonding_state, transition_to_withdrawn_state,
}
use staking_api_service.Utils.Bitcoin.{Btc}
use staking_api_service.Utils.Unbonding.{
  UnbondingRequest, VersionedGlobalParams, verify_unbonding_request,
}
use staking_api_service.Service.Params.{Config, get_versioned_global_params_by_height}
use staking_api_service.Service.Delegations.{Service}

-- the arguments of `VerifyUnbondingRequest`: the request's, and those of the stored delegation
unfoldable pub unbonding_request :
    DelegationDocument → (tx_hash tx_hex signature : String) → UnbondingRequest
unbonding_request d tx_hash tx_hex signature = record {
  staking_tx_hash_hex = d.staking_tx_hash_hex;
  unbonding_tx_hash_hex = tx_hash;
  unbonding_tx_hex = tx_hex;
  staker_pk_hex = d.staker_pk_hex;
  finality_provider_pk_hex = d.finality_provider_pk_hex;
  unbonding_sig_hex = signature;
  staking_time_lock = d.staking_tx.time_lock;
  staking_output_index = d.staking_tx.output_index;
  staking_value = d.staking_value;
}

unfoldable pub find_error : GoError → Error
find_error e =
    if is_not_found_error e
    then new_error_with_msg Status.forbidden not_found "delegation not found"
    else new_error Status.internal_server_error internal_service_error e

unfoldable pub save_error : GoError → Error
save_error e =
    if is_duplicate_key_error e
    then new_error Status.forbidden forbidden e
    else if is_not_found_error e
    then new_error Status.forbidden forbidden e
    else new_error Status.internal_server_error internal_service_error e

unfoldable pub transition_error : String → GoError → Error
transition_error message e =
    if is_not_found_error e
    then new_error_with_msg Status.forbidden not_found message
    else new_error Status.internal_server_error internal_service_error e

module _ ⦃driver : Driver⦄ where
  unfoldable pub transition_to_unbonding :
      String
      → (start_height timelock output_index : Uint64) → String
      → Int64
      → Service driver (Unit {0})
  transition_to_unbonding hash start_height timelock output_index tx_hex start_timestamp =
      try
        (transition_to_unbonding_state hash start_height timelock output_index tx_hex
          start_timestamp)
        (λ e. fail (transition_error "delegation not found or no longer eligible for unbonding" e))
        pure

  unfoldable pub transition_to_withdrawn : String → Service driver (Unit {0})
  transition_to_withdrawn hash =
      try (transition_to_withdrawn_state hash)
        (λ e. fail (transition_error "delegation not found or no longer eligible for withdraw" e))
        pure

  unfoldable pub is_eligible_for_unbonding_request : String → Service driver (Unit {0})
  is_eligible_for_unbonding_request hash =
      try (find_delegation_by_tx_hash_hex hash) (λ e. fail (find_error e))
        (λ d.
          if state_eq d.state active
          then pure tt
          else fail
              (new_error_with_msg Status.forbidden forbidden "delegation state is not active"))

module _ ⦃driver : Driver⦄ ⦃btc : Btc⦄ where
  unfoldable pub verify : UnbondingRequest → Option VersionedGlobalParams → Result Error (Unit {0})
  verify r none = err (
      new_error_with_msg Status.internal_server_error internal_service_error
        "failed to get global params based on the staking tx height")
  verify r (some params) = elim (verify_unbonding_request r params) [
    | ok t ↦ ok tt
    | err e ↦ err (new_error Status.forbidden validation_error e)
  ]

  unfoldable pub unbond_delegation :
      Config → (hash tx_hash tx_hex signature : String) → Service driver (Unit {0})
  unfolding verify
  unbond_delegation cfg hash tx_hash tx_hex signature =
      try (find_delegation_by_tx_hash_hex hash) (λ e. fail (find_error e))
        (λ d.
          if state_eq d.state active
          then (do
            lift (
                verify (unbonding_request d tx_hash tx_hex signature)
                  (get_versioned_global_params_by_height cfg d.staking_tx.start_height))
            try (save_unbonding_tx hash tx_hash tx_hex signature) (λ e. fail (save_error e)) pure)
          else fail
              (new_error_with_msg Status.forbidden forbidden "delegation state is not active"))
