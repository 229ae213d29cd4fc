-- ===== src/Queue/Handlers.antt =====
-- active_staking.go, unbonding.go, expired_staking.go, withdraw.go and btc_info.go of
-- internal/v1/queue/handler. Each handler is `…_handler` on the body of a message, and `handle_…` on
-- the event that it holds.
use staking_api_service.Base.{String, if◌then◌else◌}
use staking_api_service.Base.Exec.{pure, fail, lift, try, ◌>>=◌, ◌>>◌}
use staking_api_service.Types.Errors.{
  bad_request, forbidden, new_error, new_error_with_msg, new_internal_service_error, as_go_error,
}
use staking_api_service.Types.Errors.Status
use staking_api_service.Types.States.{
  active, unbonded, to_string, active_tx_type, unbonding_tx_type, staking_tx_type_from_string,
  contains, outdated_states_for_unbonding, outdated_states_for_unbonded,
  outdated_states_for_withdraw, qualified_states_to_withdraw,
}
use staking_api_service.Model.{DelegationDocument}
use staking_api_service.Driver.{Driver, StatsEvent}
use staking_api_service.Service.Delegations.{
  Service, save_active_staking, is_delegation_present, get_delegation,
}
use staking_api_service.Service.Unbonding.{transition_to_unbonding, transition_to_withdrawn}
use staking_api_service.Service.Timelock.{process_expire_check, transition_to_unbonded}
use staking_api_service.Service.Stats.{process_btc_info_stats}
use staking_api_service.Queue.Events.{
  ActiveStakingEvent, UnbondingStakingEvent, ExpiredStakingEvent, WithdrawStakingEvent,
  BtcInfoEvent, EventFormat, unmarshal, emit_stats_event,
}

-- `queueClient.NewStatsEvent`
unfoldable pub active_stats_event : EventFormat → ActiveStakingEvent → StatsEvent
active_stats_event format e = record {
  schema_version = format.stats_schema_version;
  staking_tx_hash_hex = e.staking_tx_hash_hex;
  staker_pk_hex = e.staker_pk_hex;
  finality_provider_pk_hex = e.finality_provider_pk_hex;
  staking_value = e.staking_value;
  state = to_string active;
  is_overflow = e.is_overflow;
}

unfoldable pub unbonded_stats_event : EventFormat → DelegationDocument → StatsEvent
unbonded_stats_event format d = record {
  schema_version = format.stats_schema_version;
  staking_tx_hash_hex = d.staking_tx_hash_hex;
  staker_pk_hex = d.staker_pk_hex;
  finality_provider_pk_hex = d.finality_provider_pk_hex;
  staking_value = d.staking_value;
  state = to_string unbonded;
  is_overflow = d.is_overflow;
}

module _ ⦃driver : Driver⦄ (format : EventFormat) where
  unfoldable pub handle_active_staking : ActiveStakingEvent → Service driver (Unit {0})
  handle_active_staking e = do
    exist ← is_delegation_present e.staking_tx_hash_hex
    if exist then pure tt else do
      emit_stats_event (active_stats_event format e)
      process_expire_check e.staking_tx_hash_hex e.staking_start_height e.staking_time_lock
          active_tx_type
      save_active_staking e.staking_tx_hash_hex e.staker_pk_hex e.finality_provider_pk_hex
          e.staking_value e.staking_start_height e.staking_start_timestamp e.staking_time_lock
          e.staking_output_index e.staking_tx_hex e.is_overflow

  unfoldable pub active_staking_handler : String → Service driver (Unit {0})
  active_staking_handler body = unmarshal (format.active_staking body) handle_active_staking

  unfoldable pub handle_unbonding_staking : UnbondingStakingEvent → Service driver (Unit {0})
  handle_unbonding_staking e = do
    del ← get_delegation e.staking_tx_hash_hex
    if contains outdated_states_for_unbonding del.state then pure tt else do
      process_expire_check e.staking_tx_hash_hex e.unbonding_start_height e.unbonding_time_lock
          unbonding_tx_type
      emit_stats_event (unbonded_stats_event format del)
      transition_to_unbonding e.staking_tx_hash_hex e.unbonding_start_height e.unbonding_time_lock
          e.unbonding_output_index e.unbonding_tx_hex e.unbonding_start_timestamp

  unfoldable pub unbonding_staking_handler : String → Service driver (Unit {0})
  unbonding_staking_handler body =
      unmarshal (format.unbonding_staking body) handle_unbonding_staking

module _ ⦃driver : Driver⦄ where
  unfoldable pub handle_expired_staking : ExpiredStakingEvent → Service driver (Unit {0})
  handle_expired_staking e = do
    del ← get_delegation e.staking_tx_hash_hex
    if contains outdated_states_for_unbonded del.state
        then pure tt
        else try (lift (staking_tx_type_from_string e.tx_type))
            (λ x. fail (new_error Status.bad_request bad_request x))
            (λ tx_type. transition_to_unbonded tx_type e.staking_tx_hash_hex)

  unfoldable pub handle_withdraw_staking : WithdrawStakingEvent → Service driver (Unit {0})
  handle_withdraw_staking e = do
    del ← get_delegation e.staking_tx_hash_hex
    if contains outdated_states_for_withdraw del.state
        then pure tt
        else if contains qualified_states_to_withdraw del.state
        then transition_to_withdrawn e.staking_tx_hash_hex
        else fail (
            new_error_with_msg Status.forbidden forbidden
              "delegation is not in the qualified state to transition to withdrawn")

  unfoldable pub handle_btc_info : BtcInfoEvent → Service driver (Unit {0})
  handle_btc_info e =
      try (process_btc_info_stats e.height e.confirmed_tvl e.unconfirmed_tvl)
        (λ x. fail (new_internal_service_error (as_go_error x))) pure

module _ ⦃driver : Driver⦄ (format : EventFormat) where
  unfoldable pub expired_staking_handler : String → Service driver (Unit {0})
  expired_staking_handler body = unmarshal (format.expired_staking body) handle_expired_staking

  unfoldable pub withdraw_staking_handler : String → Service driver (Unit {0})
  withdraw_staking_handler body = unmarshal (format.withdraw_staking body) handle_withdraw_staking

  unfoldable pub btc_info_handler : String → Service driver (Unit {0})
  btc_info_handler body = unmarshal (format.btc_info body) handle_btc_info
