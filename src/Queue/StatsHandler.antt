-- ===== src/Queue/StatsHandler.antt =====
-- stats.go of internal/v1/queue/handler
use staking_api_service.Base.{String, Bool, ltb, not, if◌then◌else◌}
use staking_api_service.Base.Exec.{pure, fail, lift, try, ◌>>=◌, ◌>>◌}
use staking_api_service.Types.Errors.{bad_request, new_error}
use staking_api_service.Types.Errors.Status
use staking_api_service.Types.States.{
  DelegationState, active, state_eq, from_string_to_delegation_state,
}
use staking_api_service.Driver.{Driver, StatsEvent}
use staking_api_service.Utils.Bitcoin.{Btc}
use staking_api_service.Service.Params.{Config}
use staking_api_service.Service.Delegations.{Service, get_delegation}
use staking_api_service.Service.Staker.{process_and_save_btc_addresses}
use staking_api_service.Service.Stats.{process_staking_stats_calculation}
use staking_api_service.Queue.Events.{EventFormat, unmarshal}

module _ ⦃driver : Driver⦄ where
  -- Events of schema version 0 do not say whether the delegation is an overflow.
  unfoldable pub overflow_status : StatsEvent → Service driver Bool
  overflow_status e =
      if ltb e.schema_version 1
      then (get_delegation e.staking_tx_hash_hex >>= λ d. pure d.is_overflow)
      else pure e.is_overflow

module _ ⦃driver : Driver⦄ ⦃btc : Btc⦄ where
  unfoldable pub perform_address_lookup_conversion :
      String → DelegationState → Service driver (Unit {0})
  perform_address_lookup_conversion staker_pk state =
      if state_eq state active then process_and_save_btc_addresses staker_pk else pure tt

  unfoldable pub handle_stats : Config → StatsEvent → Service driver (Unit {0})
  handle_stats cfg e =
      try (lift (from_string_to_delegation_state e.state))
        (λ x. fail (new_error Status.bad_request bad_request x))
        (λ state. do
          is_overflow ← overflow_status e
          perform_address_lookup_conversion e.staker_pk_hex state
          if not is_overflow
              then process_staking_stats_calculation cfg e.staking_tx_hash_hex e.staker_pk_hex
                  e.finality_provider_pk_hex state e.staking_value
              else pure tt)

  unfoldable pub stats_handler : EventFormat → Config → String → Service driver (Unit {0})
  stats_handler format cfg body = unmarshal (format.stats body) (handle_stats cfg)
