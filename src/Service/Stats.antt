-- ===== src/Service/Stats.antt =====
-- internal/v1/service/stats.go
use Prim.Native.String.{◌++◌}
use staking_api_service.Base.{String, Bool, if◌then◌else◌}
use staking_api_service.Base.Exec.{pure, fail, try}
use staking_api_service.Types.Errors.{
  bad_request, is_not_found_error, new_error_with_msg, new_internal_service_error, as_go_error,
}
use staking_api_service.Types.Errors.Status
use staking_api_service.Types.States.{DelegationState, active, unbonded, to_string}
use staking_api_service.Model.{Uint64, StatsLockDocument}
use staking_api_service.Driver.{Driver}
use staking_api_service.Store.Access.{Client}
use staking_api_service.Store.StatsLock.{get_or_create_stats_lock}
use staking_api_service.Store.Stats.{
  increment_finality_provider_stats, subtract_finality_provider_stats, increment_staker_stats,
  subtract_staker_stats, increment_overall_stats, subtract_overall_stats,
}
use staking_api_service.Store.BtcInfos.{upsert_latest_btc_info}
use staking_api_service.Utils.Bitcoin.{Btc}
use staking_api_service.Service.Params.{Config}
use staking_api_service.Service.Delegations.{Service}
use staking_api_service.Service.Staker.{process_and_save_btc_addresses}

module _ ⦃driver : Driver⦄ where
  -- An update that is skipped if its lock is set. Where the database says that it has been made
  -- already, the whole calculation ends there with no error.
  unfoldable pub update_unless :
      Bool → Client driver (Unit {0}) → Service driver (Unit {0}) → Service driver (Unit {0})
  update_unless done update rest =
      if done
      then rest
      else try update
          (λ e. if is_not_found_error e then pure tt else fail (new_internal_service_error e))
          (λ _. rest)

module _ ⦃driver : Driver⦄ ⦃btc : Btc⦄ where
  -- the addresses are saved, then the staker's statistics, unless they are locked
  unfoldable pub save_addresses_unless :
      Bool → String → Service driver (Unit {0}) → Service driver (Unit {0})
  save_addresses_unless done staker_pk rest =
      if done
      then rest
      else try (process_and_save_btc_addresses staker_pk)
          (λ e. fail (new_internal_service_error (as_go_error e))) (λ _. rest)

  -- the `switch` on the state, with the lock document that was read
  unfoldable pub calculate :
      Config
      → (hash staker_pk fp_pk : String) → DelegationState
      → Uint64
      → StatsLockDocument
      → Service driver (Unit {0})
  unfolding update_unless save_addresses_unless
  calculate cfg hash staker_pk fp_pk active amount lock =
      update_unless lock.finality_provider_stats
        (increment_finality_provider_stats hash fp_pk amount)
        (save_addresses_unless lock.staker_stats staker_pk (
          update_unless lock.staker_stats (increment_staker_stats hash staker_pk amount) (
            update_unless lock.overall_stats
              (increment_overall_stats cfg.logical_shard_count hash staker_pk amount) (pure tt))))
  calculate cfg hash staker_pk fp_pk unbonded amount lock =
      update_unless lock.finality_provider_stats
        (subtract_finality_provider_stats hash fp_pk amount)
        (update_unless lock.staker_stats (subtract_staker_stats hash staker_pk amount) (
          update_unless lock.overall_stats
            (subtract_overall_stats cfg.logical_shard_count hash staker_pk amount) (pure tt)))
  calculate cfg hash staker_pk fp_pk state amount lock = fail (
      new_error_with_msg Status.bad_request bad_request
        ("invalid delegation state for stats calculation: " ++ to_string state))

  unfoldable pub process_staking_stats_calculation :
      Config
      → (hash staker_pk fp_pk : String) → DelegationState
      → Uint64
      → Service driver (Unit {0})
  unfolding calculate
  process_staking_stats_calculation cfg hash staker_pk fp_pk state amount =
      try (get_or_create_stats_lock hash (to_string state))
        (λ e. fail (new_internal_service_error e))
        (λ lock. calculate cfg hash staker_pk fp_pk state amount lock)

module _ ⦃driver : Driver⦄ where
  unfoldable pub process_btc_info_stats :
      (height confirmed_tvl unconfirmed_tvl : Uint64) → Service driver (Unit {0})
  process_btc_info_stats height confirmed_tvl unconfirmed_tvl =
      try (upsert_latest_btc_info height confirmed_tvl unconfirmed_tvl)
        (λ e. fail (new_internal_service_error e)) pure
