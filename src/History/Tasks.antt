-- ===== src/History/Tasks.antt =====
-- The records that are kept, over every list of tasks.
use staking_api_service.Base.{ℕ, String, ◌≡◌, refl, List, [], ◌∷◌, Option, some, none}
use staking_api_service.Base.Exec.{Exec}
use staking_api_service.Types.Errors.{GoError}
use staking_api_service.Model.{Uint64, PkAddressMapping, UnbondingDocument}
use staking_api_service.Driver.{Driver, World, Fate, Db, StatsEvent, call}
use staking_api_service.Driver.Keeps.{Keeps, Keeps-bind, Keeps-call, keeps_rules}
use staking_api_service.Store.Access.{query, decode}
use staking_api_service.Store.StatsLock.{
  LockField, overall, staker, finality_provider, get_or_create_stats_lock, lock_once,
}
use staking_api_service.Store.BtcInfos.{find_btc_info, insert_btc_info, update_btc_info}
use staking_api_service.Store.Delegations.{
  insert_delegation, find_one_delegation, update_one_delegation,
}
use staking_api_service.Store.Unbonding.{insert_unbonding}
use staking_api_service.Store.Stats.{
  Increment, upsert_finality_provider_stats, upsert_staker_stats, upsert_overall_stats,
  find_staker_stats, generate_overall_stats_id, set_captured, draw,
}
use staking_api_service.Store.Timelock.{save_time_lock_expire_check}
use staking_api_service.Store.Others.{insert_mapping, save_unprocessable_message}
use staking_api_service.Utils.Bitcoin.{Btc}
use staking_api_service.Service.Params.{Config}
use staking_api_service.Queue.Events.{EventFormat, send}
use staking_api_service.Tasks.{Task, run}
use staking_api_service.Tasks.Calls.{
  CallKeeps, increment_provider-Keeps, subtract_provider-Keeps, increment_staker-Keeps,
  subtract_staker-Keeps, increment_overall-Keeps, subtract_overall-Keeps, upsert_info-Keeps,
  addresses-Keeps,
}
use staking_api_service.Tasks.DelegationCalls.{
  DelegationCalls, find_delegation-Keeps, save_active-Keeps, to_unbonding-Keeps, to_unbonded-Keeps,
  to_withdrawn-Keeps, save_unbonding-Keeps,
}
use staking_api_service.Tasks.Keeps.{StoreKeeps, run-Keeps}
use staking_api_service.History.Grows.{
  nothing_newer, newer, Newer-one, Stays-refl, Stays-insert, insert-Stays, Grows, Grows-refl,
  Grows-same, growth, records,
}

module _ ⦃driver : Driver⦄ where
  open driver use {mongo}

  -- a call on another collection
  other_query : {A : Type 0} (f : Db mongo → A) → Keeps (growth mongo) (query f)
  other_query f = record { at = λ w. Grows-refl w.visible }

  other_decode : {A : Type 0} (o : Option A) → Keeps (growth mongo) (decode o)
  other_decode none = search keeps_rules
  other_decode (some a) = search keeps_rules

  other_draw : (n : ℕ) (r : List ℕ) → Keeps (growth mongo) (draw n r)
  other_draw n [] = record { at = λ w. Grows-refl w.visible }
  other_draw n (x ∷ r) = record { at = λ w. Grows-refl w.visible }

  -- a call that leaves the records alone
  apart :
      {A : Type 0} (c : Exec (World mongo) GoError A)
      → ((w : World mongo) → records w.visible ≡ records (c w).1.visible)
      → Keeps (growth mongo) (call c)
  apart c h = Keeps-call c (record { at = λ w. Grows-same (h w) })

  map_address : (d : PkAddressMapping) → Keeps (growth mongo) (insert_mapping d)
  unfolding insert_mapping
  map_address d = Keeps-call _ (record {
    at = λ w. record {
      unbonding = λ k. Stays-refl _;
      mappings = λ k. insert-Stays mongo.pk_address_mappings d w.db.pk_address_mappings k;
      time_locks = nothing_newer;
      dumped = nothing_newer;
      sent = nothing_newer;
    };
  })

  add_unbonding : (x : UnbondingDocument) → Keeps (growth mongo) (insert_unbonding x)
  unfolding insert_unbonding
  add_unbonding x = Keeps-call _ (record {
    at = λ w. record {
      unbonding = λ k.
          rw mongo.unbonding.view-insert_one
            (Stays-insert (mongo.unbonding.view w.db.unbonding) _ k x);
      mappings = λ k. Stays-refl _;
      time_locks = nothing_newer;
      dumped = nothing_newer;
      sent = nothing_newer;
    };
  })

  add_time_lock :
      (hash : String) (height : Uint64) (tx_type : String)
      → Keeps (growth mongo) (save_time_lock_expire_check hash height tx_type)
  unfolding save_time_lock_expire_check
  add_time_lock hash height tx_type = Keeps-call _ (record {
    at = λ w. record {
      unbonding = λ k. Stays-refl _;
      mappings = λ k. Stays-refl _;
      time_locks = Newer-one _ (mongo.timelock.all-insert_one _ _);
      dumped = nothing_newer;
      sent = nothing_newer;
    };
  })

  dump : (body receipt : String) → Keeps (growth mongo) (save_unprocessable_message body receipt)
  unfolding save_unprocessable_message
  dump body receipt = Keeps-call _ (record {
    at = λ w. record {
      unbonding = λ k. Stays-refl _;
      mappings = λ k. Stays-refl _;
      time_locks = nothing_newer;
      dumped = Newer-one _ (mongo.unprocessable_messages.all-insert_one _ _);
      sent = nothing_newer;
    };
  })

  announce : (event : StatsEvent) → Keeps (growth mongo) (send event)
  unfolding send
  announce event = Keeps-call _ (record {
    at = λ w. record {
      unbonding = λ k. Stays-refl _;
      mappings = λ k. Stays-refl _;
      time_locks = nothing_newer;
      dumped = nothing_newer;
      sent = newer event nothing_newer;
    };
  })

  calls : CallKeeps (growth mongo)
  unfolding get_or_create_stats_lock find_staker_stats generate_overall_stats_id set_captured
      find_btc_info insert_btc_info update_btc_info
  calls = record {
    stats_lock = λ h t. apart _ (λ w. refl);
    shard = λ n. record { at = λ w. (other_draw n w.random).at w };
    captured = λ b. record { at = λ w. Grows-refl w.visible };
    find_staker = λ pk. Keeps-bind _ _ (Keeps-call _ (other_query _)) other_decode;
    find_info = Keeps-bind _ _ (Keeps-call _ (other_query _)) other_decode;
    insert_info = λ i. apart _ (λ w. refl);
    update_info = λ i. apart _ (λ w. refl);
    expire_check = add_time_lock;
    mapping = map_address;
    unprocessable = dump;
    send_event = announce;
  }

  delegation_calls : DelegationCalls (growth mongo)
  unfolding insert_delegation find_one_delegation update_one_delegation
  delegation_calls = record {
    insert = λ d. apart _ (λ w. refl);
    find = λ h p. Keeps-bind _ _ (Keeps-call _ (other_query _)) other_decode;
    update = λ h p f. apart _ (λ w. refl);
    insert_unbonding_tx = add_unbonding;
  }

  once : (f : LockField) (id : String) → Keeps (growth mongo) (lock_once id f)
  unfolding lock_once
  once f id = apart _ (λ w. refl)

  provider :
      (pk : String) (i : Increment) → Keeps (growth mongo) (upsert_finality_provider_stats pk i)
  unfolding upsert_finality_provider_stats
  provider pk i = apart _ (λ w. refl)

  staker_upsert : (pk : String) (i : Increment) → Keeps (growth mongo) (upsert_staker_stats pk i)
  unfolding upsert_staker_stats
  staker_upsert pk i = apart _ (λ w. refl)

  overall_upsert :
      (s : String) (i : Increment) (n : Uint64) → Keeps (growth mongo) (upsert_overall_stats s i n)
  unfolding upsert_overall_stats
  overall_upsert s i n = apart _ (λ w. refl)

  store : StoreKeeps (growth mongo)
  store = record {
    find_delegation = find_delegation-Keeps delegation_calls;
    save_active = save_active-Keeps delegation_calls;
    save_unbonding = save_unbonding-Keeps delegation_calls;
    to_unbonding = to_unbonding-Keeps delegation_calls;
    to_unbonded = to_unbonded-Keeps delegation_calls;
    to_withdrawn = to_withdrawn-Keeps delegation_calls;
    expire_check = add_time_lock;
    upsert_btc_info = upsert_info-Keeps calls;
    stats_lock = calls.stats_lock;
    increment_provider = increment_provider-Keeps (once finality_provider) provider;
    subtract_provider = subtract_provider-Keeps (once finality_provider) provider;
    increment_staker = increment_staker-Keeps (once staker) staker_upsert;
    subtract_staker = subtract_staker-Keeps (once staker) staker_upsert;
    increment_overall = increment_overall-Keeps calls (once overall) overall_upsert;
    subtract_overall = subtract_overall-Keeps calls (once overall) overall_upsert;
    save_addresses = addresses-Keeps calls;
    save_unprocessable = dump;
    send_event = announce;
  }

module _ ⦃driver : Driver⦄ ⦃btc : Btc⦄ where
  -- Over any tasks and any faults of the network, every unbonding document and every address mapping that is
  -- stored stays as it is, and time locks, unprocessable messages and events sent to the stats queue are
  -- only added.
  pub run-Grows :
      (format : EventFormat) (cfg : Config) (w : World driver.mongo)
      (tasks : List (Task × List Fate))
      → Grows w.visible (run format cfg w tasks).visible
  run-Grows format cfg w tasks = run-Keeps store format cfg w tasks
