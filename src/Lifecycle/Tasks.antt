-- ===== src/Lifecycle/Tasks.antt =====
-- The life of a delegation over every list of tasks.
use staking_api_service.Base.{ℕ, String, List, [], ◌∷◌, Option}
use staking_api_service.Model.{Uint64, DelegationDocument}
use staking_api_service.Driver.{Driver, World, Fate}
use staking_api_service.Driver.Keeps.{Keeps, Keeps-call, keeps_rules}
use staking_api_service.Store.StatsLock.{
  LockField, finality_provider, get_or_create_stats_lock, lock_once,
}
use staking_api_service.Store.BtcInfos.{find_btc_info, insert_btc_info, update_btc_info}
use staking_api_service.Store.Stats.{
  Increment, upsert_finality_provider_stats, upsert_staker_stats, upsert_overall_stats,
  find_staker_stats, generate_overall_stats_id, set_captured, draw,
}
use staking_api_service.Store.Timelock.{save_time_lock_expire_check}
use staking_api_service.Store.Others.{insert_mapping, save_unprocessable_message}
use staking_api_service.Utils.Bitcoin.{Btc}
use staking_api_service.Service.Params.{Config}
use staking_api_service.Queue.Events.{EventFormat, send}
use staking_api_service.Tasks.{Task, run}
use staking_api_service.Tasks.Calls.{
  CallKeeps, increment_provider-Keeps, subtract_provider-Keeps, increment_staker-Keeps,
  subtract_staker-Keeps, increment_overall-Keeps, subtract_overall-Keeps, upsert_info-Keeps,
  addresses-Keeps,
}
use staking_api_service.Tasks.Keeps.{StoreKeeps, run-Keeps}
use staking_api_service.Lifecycle.Order.{Evolves, Evolves-refl, lifecycle}
use staking_api_service.Lifecycle.Store.{
  lifecycle-query, lifecycle-decode, find_delegation-lifecycle, save_active-lifecycle,
  save_unbonding_tx-lifecycle, transition_to_unbonding-lifecycle, transition_to_unbonded-lifecycle,
  transition_to_withdrawn-lifecycle,
}

module _ ⦃driver : Driver⦄ where
  open driver use {mongo}

  draw-lifecycle : (n : ℕ) (r : List ℕ) → Keeps (lifecycle mongo) (draw n r)
  draw-lifecycle n [] = record { at = λ w k. Evolves-refl _ }
  draw-lifecycle n (x ∷ r) = record { at = λ w k. Evolves-refl _ }

  -- No call of the statistics' side touches the delegations.
  calls : CallKeeps (lifecycle mongo)
  unfolding get_or_create_stats_lock find_staker_stats generate_overall_stats_id set_captured
      find_btc_info insert_btc_info update_btc_info save_time_lock_expire_check insert_mapping
      save_unprocessable_message send
  calls = record {
    stats_lock = λ h t. Keeps-call _ (record { at = λ w k. Evolves-refl _ });
    shard = λ n. record { at = λ w. (draw-lifecycle n w.random).at w };
    captured = λ b. record { at = λ w k. Evolves-refl _ };
    find_staker = λ pk. search (keeps_rules, lifecycle-query, lifecycle-decode);
    find_info = search (keeps_rules, lifecycle-query, lifecycle-decode);
    insert_info = λ i. Keeps-call _ (record { at = λ w k. Evolves-refl _ });
    update_info = λ i. Keeps-call _ (record { at = λ w k. Evolves-refl _ });
    expire_check = λ h e t. Keeps-call _ (record { at = λ w k. Evolves-refl _ });
    mapping = λ d. Keeps-call _ (record { at = λ w k. Evolves-refl _ });
    unprocessable = λ b r. Keeps-call _ (record { at = λ w k. Evolves-refl _ });
    send_event = λ e. Keeps-call _ (record { at = λ w k. Evolves-refl _ });
  }

  once : (f : LockField) (id : String) → Keeps (lifecycle mongo) (lock_once id f)
  unfolding lock_once
  once f id = Keeps-call _ (record { at = λ w k. Evolves-refl _ })

  provider :
      (pk : String) (i : Increment) → Keeps (lifecycle mongo) (upsert_finality_provider_stats pk i)
  unfolding upsert_finality_provider_stats
  provider pk i = Keeps-call _ (record { at = λ w k. Evolves-refl _ })

  staker : (pk : String) (i : Increment) → Keeps (lifecycle mongo) (upsert_staker_stats pk i)
  unfolding upsert_staker_stats
  staker pk i = Keeps-call _ (record { at = λ w k. Evolves-refl _ })

  overall :
      (s : String) (i : Increment) (n : Uint64)
      → Keeps (lifecycle mongo) (upsert_overall_stats s i n)
  unfolding upsert_overall_stats
  overall s i n = Keeps-call _ (record { at = λ w k. Evolves-refl _ })

  store : StoreKeeps (lifecycle mongo)
  store = record {
    find_delegation = find_delegation-lifecycle;
    save_active = save_active-lifecycle;
    save_unbonding = save_unbonding_tx-lifecycle;
    to_unbonding = transition_to_unbonding-lifecycle;
    to_unbonded = transition_to_unbonded-lifecycle;
    to_withdrawn = transition_to_withdrawn-lifecycle;
    expire_check = calls.expire_check;
    upsert_btc_info = upsert_info-Keeps calls;
    stats_lock = calls.stats_lock;
    increment_provider = increment_provider-Keeps (once finality_provider) provider;
    subtract_provider = subtract_provider-Keeps (once finality_provider) provider;
    increment_staker = increment_staker-Keeps (once LockField.staker) staker;
    subtract_staker = subtract_staker-Keeps (once LockField.staker) staker;
    increment_overall = increment_overall-Keeps calls (once LockField.overall) overall;
    subtract_overall = subtract_overall-Keeps calls (once LockField.overall) overall;
    save_addresses = addresses-Keeps calls;
    save_unprocessable = calls.unprocessable;
    send_event = calls.send_event;
  }

-- the state of the delegation with a key, in the database of a world
abbrev pub delegation : ⦃driver : Driver⦄ → World driver.mongo → String → Option DelegationDocument
delegation ⦃driver⦄ w k = driver.mongo.delegations.view w.db.delegations k

module _ ⦃driver : Driver⦄ ⦃btc : Btc⦄ where
  -- Over any tasks and any faults of the network, every delegation document that is there at the start is
  -- there at the end with the same staking data, and its state has moved along arrows of the life cycle; one
  -- that was not there has come to its state from active.
  pub run-Evolves :
      (format : EventFormat) (cfg : Config) (w : World driver.mongo)
      (tasks : List (Task × List Fate)) (k : String)
      → Evolves (delegation w k) (delegation (run format cfg w tasks) k)
  run-Evolves format cfg w tasks = run-Keeps store format cfg w tasks
