-- ===== src/Tasks/Keeps.antt =====
-- A relation that every operation of the store keeps is kept by every handler, and by every list of
-- tasks. The operations' theorems are an interface, `StoreKeeps`, which each invariant fills.
use staking_api_service.Base.{ℕ, String, Bool, List, [], ◌∷◌}
use staking_api_service.Base.Exec.{Result}
use staking_api_service.Types.Errors.{GoError}
use staking_api_service.Types.States.{
  DelegationState, active, unbonded, StakingTxType, qualified_states_to_unbonded,
}
use staking_api_service.Model.{Uint64, Int64, StatsLockDocument}
use staking_api_service.Driver.{Driver, World, Visible, StatsEvent, Fate}
use staking_api_service.Driver.Keeps.{Preorder, Keeps, keeps_rules}
use staking_api_service.Store.Delegations.{
  save_active_staking_delegation, find_delegation_by_tx_hash_hex,
}
use staking_api_service.Store.Unbonding.{
  save_unbonding_tx, transition_to_unbonding_state, transition_to_withdrawn_state,
}
use staking_api_service.Store.Timelock.{save_time_lock_expire_check, transition_to_unbonded_state}
use staking_api_service.Store.BtcInfos.{upsert_latest_btc_info}
use staking_api_service.Store.StatsLock.{get_or_create_stats_lock}
use staking_api_service.Store.Stats.{
  increment_finality_provider_stats, subtract_finality_provider_stats, increment_staker_stats,
  subtract_staker_stats, increment_overall_stats, subtract_overall_stats,
}
use staking_api_service.Store.Others.{insert_pk_address_mappings, save_unprocessable_message}
use staking_api_service.Utils.Bitcoin.{Btc}
use staking_api_service.Service.Params.{Config}
use staking_api_service.Service.Delegations.{
  Service, save_active_staking, is_delegation_present, get_delegation,
}
use staking_api_service.Service.Unbonding.{
  unbond_delegation, transition_to_unbonding, transition_to_withdrawn,
}
use staking_api_service.Service.Timelock.{process_expire_check, transition_to_unbonded}
use staking_api_service.Service.Staker.{process_and_save_btc_addresses}
use staking_api_service.Service.Stats.{
  calculate, process_staking_stats_calculation, process_btc_info_stats,
}
use staking_api_service.Queue.Events.{
  EventFormat, ActiveStakingEvent, UnbondingStakingEvent, ExpiredStakingEvent, WithdrawStakingEvent,
  BtcInfoEvent, unmarshal, emit_stats_event, send,
}
use staking_api_service.Queue.Handlers.{
  handle_active_staking, handle_unbonding_staking, handle_expired_staking, handle_withdraw_staking,
  handle_btc_info, active_staking_handler, unbonding_staking_handler, expired_staking_handler,
  withdraw_staking_handler, btc_info_handler,
}
use staking_api_service.Queue.StatsHandler.{
  overflow_status, perform_address_lookup_conversion, handle_stats, stats_handler,
}
use staking_api_service.Queue.Messages.{save_unprocessable_messages}
use staking_api_service.Tasks.{
  Task, active_staking, unbonding_staking, expired_staking, withdraw_staking, stats, btc_info,
  unprocessable, unbond, perform, run,
}

pub record StoreKeeps ⦃driver : Driver⦄ (P : Preorder (Visible driver.mongo)) : Type 0 where
  pub find_delegation : (hash : String) → Keeps P (find_delegation_by_tx_hash_hex hash)
  pub save_active :
      (hash staker_pk fp_pk tx_hex : String) (amount start_height timelock output_index : Uint64)
      (start : Int64) (overflow : Bool)
      → Keeps P (
          save_active_staking_delegation hash staker_pk fp_pk tx_hex amount start_height timelock
            output_index start overflow)
  pub save_unbonding :
      (hash tx_hash tx_hex signature : String)
      → Keeps P (save_unbonding_tx hash tx_hash tx_hex signature)
  pub to_unbonding :
      (tx_hash : String) (start_height timelock output_index : Uint64) (tx_hex : String)
      (start : Int64)
      → Keeps P
          (transition_to_unbonding_state tx_hash start_height timelock output_index tx_hex start)
  pub to_unbonded :
      (hash : String) (t : StakingTxType)
      → Keeps P (transition_to_unbonded_state hash (qualified_states_to_unbonded t))
  pub to_withdrawn : (hash : String) → Keeps P (transition_to_withdrawn_state hash)
  pub expire_check :
      (hash : String) (height : Uint64) (tx_type : String)
      → Keeps P (save_time_lock_expire_check hash height tx_type)
  pub upsert_btc_info :
      (height confirmed unconfirmed : Uint64)
      → Keeps P (upsert_latest_btc_info height confirmed unconfirmed)
  pub stats_lock : (hash tx_type : String) → Keeps P (get_or_create_stats_lock hash tx_type)
  pub increment_provider :
      (hash pk : String) (amount : Uint64)
      → Keeps P (increment_finality_provider_stats hash pk amount)
  pub subtract_provider :
      (hash pk : String) (amount : Uint64)
      → Keeps P (subtract_finality_provider_stats hash pk amount)
  pub increment_staker :
      (hash pk : String) (amount : Uint64) → Keeps P (increment_staker_stats hash pk amount)
  pub subtract_staker :
      (hash pk : String) (amount : Uint64) → Keeps P (subtract_staker_stats hash pk amount)
  pub increment_overall :
      (n : ℕ) (hash pk : String) (amount : Uint64)
      → Keeps P (increment_overall_stats n hash pk amount)
  pub subtract_overall :
      (n : ℕ) (hash pk : String) (amount : Uint64)
      → Keeps P (subtract_overall_stats n hash pk amount)
  pub save_addresses :
      (pk taproot odd even : String) → Keeps P (insert_pk_address_mappings pk taproot odd even)
  pub save_unprocessable :
      (body receipt : String) → Keeps P (save_unprocessable_message body receipt)
  pub send_event : (event : StatsEvent) → Keeps P (send event)

module _ ⦃driver : Driver⦄ {P : Preorder (Visible driver.mongo)} (store : StoreKeeps P) where
  get_delegation-Keeps : (hash : String) → Keeps P (get_delegation hash)
  unfolding get_delegation
  get_delegation-Keeps hash = search (keeps_rules, store.find_delegation)

  is_delegation_present-Keeps : (hash : String) → Keeps P (is_delegation_present hash)
  unfolding is_delegation_present
  is_delegation_present-Keeps hash = search (keeps_rules, store.find_delegation)

  emit-Keeps : (event : StatsEvent) → Keeps P (emit_stats_event event)
  unfolding emit_stats_event
  emit-Keeps event = search (keeps_rules, store.send_event)

  process_expire_check-Keeps :
      (hash : String) (start timelock : Uint64) (t : StakingTxType)
      → Keeps P (process_expire_check hash start timelock t)
  unfolding process_expire_check
  process_expire_check-Keeps hash start timelock t = search (keeps_rules, store.expire_check)

  handle_active_staking-Keeps :
      (format : EventFormat) (e : ActiveStakingEvent) → Keeps P (handle_active_staking format e)
  unfolding handle_active_staking save_active_staking
  handle_active_staking-Keeps format e =
      search
        (
          keeps_rules, is_delegation_present-Keeps, emit-Keeps, process_expire_check-Keeps,
          store.save_active,
        )
        depth 9

  handle_unbonding_staking-Keeps :
      (format : EventFormat) (e : UnbondingStakingEvent)
      → Keeps P (handle_unbonding_staking format e)
  unfolding handle_unbonding_staking transition_to_unbonding
  handle_unbonding_staking-Keeps format e =
      search
        (
          keeps_rules, get_delegation-Keeps, emit-Keeps, process_expire_check-Keeps,
          store.to_unbonding,
        )
        depth 9

  handle_expired_staking-Keeps : (e : ExpiredStakingEvent) → Keeps P (handle_expired_staking e)
  unfolding handle_expired_staking transition_to_unbonded
  handle_expired_staking-Keeps e =
      search (keeps_rules, get_delegation-Keeps, store.to_unbonded) depth 9

  handle_withdraw_staking-Keeps : (e : WithdrawStakingEvent) → Keeps P (handle_withdraw_staking e)
  unfolding handle_withdraw_staking transition_to_withdrawn
  handle_withdraw_staking-Keeps e =
      search (keeps_rules, get_delegation-Keeps, store.to_withdrawn) depth 9

  handle_btc_info-Keeps : (e : BtcInfoEvent) → Keeps P (handle_btc_info e)
  unfolding handle_btc_info process_btc_info_stats
  handle_btc_info-Keeps e = search (keeps_rules, store.upsert_btc_info) depth 7

  unmarshal-Keeps :
      {A : Type 0} (r : Result GoError A) (next : A → Service driver (Unit {0}))
      → ((a : A) → Keeps P (next a))
      → Keeps P (unmarshal r next)
  unfolding unmarshal
  unmarshal-Keeps r next h = search keeps_rules

module _ ⦃driver : Driver⦄ ⦃btc : Btc⦄ {P : Preorder (Visible driver.mongo)}
    (store : StoreKeeps P) where
  save_btc_addresses-Keeps : (pk : String) → Keeps P (process_and_save_btc_addresses pk)
  unfolding process_and_save_btc_addresses
  save_btc_addresses-Keeps pk = search (keeps_rules, store.save_addresses) depth 7

  pub calculate-Keeps :
      (cfg : Config) (hash staker_pk fp_pk : String) (s : DelegationState) (amount : Uint64)
      (lock : StatsLockDocument)
      → Keeps P (calculate cfg hash staker_pk fp_pk s amount lock)
  unfolding calculate
  calculate-Keeps cfg hash staker_pk fp_pk active amount lock =
      search
        (
          keeps_rules, save_btc_addresses-Keeps, store.increment_provider, store.increment_staker,
          store.increment_overall,
        )
        depth 12
  calculate-Keeps cfg hash staker_pk fp_pk unbonded amount lock =
      search (keeps_rules, store.subtract_provider, store.subtract_staker, store.subtract_overall)
        depth 12
  calculate-Keeps cfg hash staker_pk fp_pk _ amount lock = search keeps_rules

  pub process_stats-Keeps :
      (cfg : Config) (hash staker_pk fp_pk : String) (s : DelegationState) (amount : Uint64)
      → Keeps P (process_staking_stats_calculation cfg hash staker_pk fp_pk s amount)
  unfolding process_staking_stats_calculation
  process_stats-Keeps cfg hash staker_pk fp_pk s amount =
      search (keeps_rules, store.stats_lock, calculate-Keeps)

  overflow_status-Keeps : (e : StatsEvent) → Keeps P (overflow_status e)
  unfolding overflow_status
  overflow_status-Keeps e = search (keeps_rules, get_delegation-Keeps store)

  lookup-Keeps :
      (pk : String) (s : DelegationState) → Keeps P (perform_address_lookup_conversion pk s)
  unfolding perform_address_lookup_conversion
  lookup-Keeps pk s = search (keeps_rules, save_btc_addresses-Keeps)

  handle_stats-Keeps : (cfg : Config) (e : StatsEvent) → Keeps P (handle_stats cfg e)
  unfolding handle_stats
  handle_stats-Keeps cfg e =
      search (keeps_rules, overflow_status-Keeps, lookup-Keeps, process_stats-Keeps) depth 9

  unbond_delegation-Keeps :
      (cfg : Config) (hash tx_hash tx_hex signature : String)
      → Keeps P (unbond_delegation cfg hash tx_hash tx_hex signature)
  unfolding unbond_delegation
  unbond_delegation-Keeps cfg hash tx_hash tx_hex signature =
      search (keeps_rules, store.find_delegation, store.save_unbonding) depth 9

  pub perform-Keeps :
      (format : EventFormat) (cfg : Config) (task : Task) → Keeps P (perform format cfg task)
  unfolding perform active_staking_handler unbonding_staking_handler expired_staking_handler
      withdraw_staking_handler btc_info_handler stats_handler save_unprocessable_messages
  perform-Keeps format cfg (active_staking body) =
      unmarshal-Keeps store _ _ (handle_active_staking-Keeps store format)
  perform-Keeps format cfg (unbonding_staking body) =
      unmarshal-Keeps store _ _ (handle_unbonding_staking-Keeps store format)
  perform-Keeps format cfg (expired_staking body) =
      unmarshal-Keeps store _ _ (handle_expired_staking-Keeps store)
  perform-Keeps format cfg (withdraw_staking body) =
      unmarshal-Keeps store _ _ (handle_withdraw_staking-Keeps store)
  perform-Keeps format cfg (stats body) = unmarshal-Keeps store _ _ (handle_stats-Keeps cfg)
  perform-Keeps format cfg (btc_info body) = unmarshal-Keeps store _ _ (handle_btc_info-Keeps store)
  perform-Keeps format cfg (unprocessable body receipt) =
      search (keeps_rules, store.save_unprocessable)
  perform-Keeps format cfg (unbond hash tx_hash tx_hex signature) =
      unbond_delegation-Keeps cfg hash tx_hash tx_hex signature

  -- Over any tasks and any faults the relation holds from the first world to the last.
  pub run-Keeps :
      (format : EventFormat) (cfg : Config) (w : World driver.mongo)
      (tasks : List (Task × List Fate))
      → P.Rel w.visible (run format cfg w tasks).visible
  unfolding run
  run-Keeps format cfg w [] = P.reflexive w.visible
  run-Keeps format cfg w ((task, fates) ∷ rest) =
      let w' : World driver.mongo = record w { fates = fates } in
      P.transitive _ _ _ ((perform-Keeps format cfg task).at w')
        (run-Keeps format cfg (perform format cfg task w').1 rest)
