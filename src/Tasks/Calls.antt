-- ===== src/Tasks/Calls.antt =====
-- From the single calls of the statistics' side to the operations of the store: for a relation that
-- every such call keeps. A relation that only whole transactions keep fills `StoreKeeps` by itself.
use staking_api_service.Base.{ℕ, String, Bool, if◌then◌else◌}
use staking_api_service.Model.{Uint64, BtcInfo, PkAddressMapping}
use staking_api_service.Driver.{Driver, Visible, StatsEvent}
use staking_api_service.Driver.Keeps.{Preorder, Keeps, Keeps-try, Keeps-if, Keeps-fail, keeps_rules}
use staking_api_service.Base.Exec.{pure, ◌>>=◌}
use staking_api_service.Store.Access.{start_session}
use staking_api_service.Store.StatsLock.{
  LockField, overall, staker, finality_provider, get_or_create_stats_lock, lock_once,
  update_stats_lock_by_field_name,
}
use staking_api_service.Store.BtcInfos.{
  find_btc_info, insert_new, insert_btc_info, update_btc_info, upsert_latest_btc_info_work,
  upsert_latest_btc_info,
}
use staking_api_service.Store.Stats.{
  Increment, upsert_finality_provider_stats, upsert_staker_stats, upsert_overall_stats,
  update_finality_provider_stats_work, update_finality_provider_stats,
  increment_finality_provider_stats, subtract_finality_provider_stats, update_staker_stats_work,
  update_staker_stats, increment_staker_stats, subtract_staker_stats, find_staker_stats,
  generate_overall_stats_id, set_captured, increment_overall_stats_work, increment_overall_stats,
  subtract_overall_stats_work, subtract_overall_stats,
}
use staking_api_service.Store.Timelock.{save_time_lock_expire_check}
use staking_api_service.Store.Others.{
  insert_mapping, insert_pk_address_mappings, save_unprocessable_message,
}
use staking_api_service.Queue.Events.{send}

pub record CallKeeps ⦃driver : Driver⦄ (P : Preorder (Visible driver.mongo)) : Type 0 where
  pub stats_lock : (hash tx_type : String) → Keeps P (get_or_create_stats_lock hash tx_type)
  pub shard : (n : ℕ) → Keeps P (generate_overall_stats_id n)
  pub captured : (b : Bool) → Keeps P (set_captured b)
  pub find_staker : (pk : String) → Keeps P (find_staker_stats pk)
  pub find_info : Keeps P find_btc_info
  pub insert_info : (i : BtcInfo) → Keeps P (insert_btc_info i)
  pub update_info : (i : BtcInfo) → Keeps P (update_btc_info i)
  pub expire_check :
      (hash : String) (height : Uint64) (tx_type : String)
      → Keeps P (save_time_lock_expire_check hash height tx_type)
  pub mapping : (d : PkAddressMapping) → Keeps P (insert_mapping d)
  pub unprocessable : (body receipt : String) → Keeps P (save_unprocessable_message body receipt)
  pub send_event : (event : StatsEvent) → Keeps P (send event)

module _ ⦃driver : Driver⦄ {P : Preorder (Visible driver.mongo)} where
  pub start_session-Keeps : Keeps P (start_session driver)
  unfolding start_session
  start_session-Keeps = search keeps_rules

module _ ⦃driver : Driver⦄ {P : Preorder (Visible driver.mongo)} (f : LockField)
    (once : (id : String) → Keeps P (lock_once id f)) where
  lock-Keeps : (hash s : String) → Keeps P (update_stats_lock_by_field_name hash s f)
  unfolding update_stats_lock_by_field_name
  lock-Keeps hash s = search (keeps_rules, once)

module _ ⦃driver : Driver⦄ {P : Preorder (Visible driver.mongo)}
    (once : (id : String) → Keeps P (lock_once id finality_provider))
    (upsert : (pk : String) (i : Increment) → Keeps P (upsert_finality_provider_stats pk i)) where
  update_provider-Keeps :
      (s hash pk : String) (i : Increment) → Keeps P (update_finality_provider_stats s hash pk i)
  unfolding update_finality_provider_stats update_finality_provider_stats_work
  update_provider-Keeps s hash pk i =
      search (keeps_rules, start_session-Keeps, lock-Keeps _ once, upsert) depth 7

  pub increment_provider-Keeps :
      (hash pk : String) (n : Uint64) → Keeps P (increment_finality_provider_stats hash pk n)
  unfolding increment_finality_provider_stats
  increment_provider-Keeps hash pk n = update_provider-Keeps _ hash pk _

  pub subtract_provider-Keeps :
      (hash pk : String) (n : Uint64) → Keeps P (subtract_finality_provider_stats hash pk n)
  unfolding subtract_finality_provider_stats
  subtract_provider-Keeps hash pk n = update_provider-Keeps _ hash pk _

module _ ⦃driver : Driver⦄ {P : Preorder (Visible driver.mongo)}
    (once : (id : String) → Keeps P (lock_once id staker))
    (upsert : (pk : String) (i : Increment) → Keeps P (upsert_staker_stats pk i)) where
  update_staker-Keeps :
      (s hash pk : String) (i : Increment) → Keeps P (update_staker_stats s hash pk i)
  unfolding update_staker_stats update_staker_stats_work
  update_staker-Keeps s hash pk i =
      search (keeps_rules, start_session-Keeps, lock-Keeps _ once, upsert) depth 7

  pub increment_staker-Keeps :
      (hash pk : String) (n : Uint64) → Keeps P (increment_staker_stats hash pk n)
  unfolding increment_staker_stats
  increment_staker-Keeps hash pk n = update_staker-Keeps _ hash pk _

  pub subtract_staker-Keeps :
      (hash pk : String) (n : Uint64) → Keeps P (subtract_staker_stats hash pk n)
  unfolding subtract_staker_stats
  subtract_staker-Keeps hash pk n = update_staker-Keeps _ hash pk _

module _ ⦃driver : Driver⦄ {P : Preorder (Visible driver.mongo)} (calls : CallKeeps P)
    (once : (id : String) → Keeps P (lock_once id overall))
    (upsert : (s : String) (i : Increment) (n : Uint64)
      → Keeps P (upsert_overall_stats s i n)) where
  pub increment_overall-Keeps :
      (shards : ℕ) (hash pk : String) (n : Uint64)
      → Keeps P (increment_overall_stats shards hash pk n)
  unfolding increment_overall_stats increment_overall_stats_work
  increment_overall-Keeps shards hash pk n =
      search
        (
          keeps_rules,
          start_session-Keeps,
          lock-Keeps _ once,
          calls.find_staker,
          calls.captured,
          calls.shard,
          upsert,
        )
        depth 12

  pub subtract_overall-Keeps :
      (shards : ℕ) (hash pk : String) (n : Uint64)
      → Keeps P (subtract_overall_stats shards hash pk n)
  unfolding subtract_overall_stats subtract_overall_stats_work
  subtract_overall-Keeps shards hash pk n =
      search (keeps_rules, start_session-Keeps, lock-Keeps _ once, calls.shard, upsert) depth 9

module _ ⦃driver : Driver⦄ {P : Preorder (Visible driver.mongo)} (calls : CallKeeps P) where
  insert_new-Keeps : (i : BtcInfo) → Keeps P (insert_new i)
  unfolding insert_new
  insert_new-Keeps i = search (keeps_rules, calls.insert_info)

  replace_info-Keeps :
      (b : Bool) (i : BtcInfo)
      → Keeps P (if b then (update_btc_info i >>= λ _. pure tt) else pure tt)
  replace_info-Keeps b i = search (keeps_rules, calls.update_info)

  upsert_work-Keeps :
      (height confirmed unconfirmed : Uint64)
      → Keeps P (upsert_latest_btc_info_work height confirmed unconfirmed)
  unfolding upsert_latest_btc_info_work
  upsert_work-Keeps height confirmed unconfirmed =
      Keeps-try _ _ _ calls.find_info (λ e. Keeps-if _ _ _ (insert_new-Keeps _) (Keeps-fail e))
        (λ existing. replace_info-Keeps _ _)

  pub upsert_info-Keeps :
      (height confirmed unconfirmed : Uint64)
      → Keeps P (upsert_latest_btc_info height confirmed unconfirmed)
  unfolding upsert_latest_btc_info
  upsert_info-Keeps height confirmed unconfirmed =
      search (keeps_rules, start_session-Keeps, upsert_work-Keeps)

  pub addresses-Keeps :
      (pk taproot odd even : String) → Keeps P (insert_pk_address_mappings pk taproot odd even)
  unfolding insert_pk_address_mappings
  addresses-Keeps pk taproot odd even = search (keeps_rules, calls.mapping)
