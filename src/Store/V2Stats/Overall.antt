-- ===== src/Store/V2Stats/Overall.antt =====
-- The overall statistics of internal/v2/db/client/stats.go.
use staking_api_service.Base.{
  ℕ, String, true, false, List, [], ◌∷◌, Option, none, some, eqb, if◌then◌else◌,
}
use staking_api_service.Base.Exec.{pure, gets, ◌>>=◌, ◌>>◌}
use staking_api_service.Types.States.{to_string, active, unbonded}
use staking_api_service.Model.{Uint64, add64, neg64, V2OverallStatsDocument}
use staking_api_service.Driver.{Driver, Work, call}
use staking_api_service.Store.Access.{Client, query, start_session}
use staking_api_service.Store.StatsLock.{overall}
use staking_api_service.Store.Stats.{
  active_increment, unbonded_decrement, generate_overall_stats_id, set_captured,
}
use staking_api_service.Store.Stats.Shards.{shards_id}
use staking_api_service.Store.V2Stats.{
  when, no_v2_overall_stats, v2_update_stats_lock_by_field_name, upsert_v2_overall,
  find_v2_staker_stats, find_v2_provider_stats, set_captured_providers,
}

-- one turn of the summing loop
unfoldable pub add_v2_overall :
    V2OverallStatsDocument → V2OverallStatsDocument → V2OverallStatsDocument
add_v2_overall stats result = record result {
  active_tvl = add64 result.active_tvl stats.active_tvl;
  total_tvl = add64 result.total_tvl stats.total_tvl;
  active_delegations = add64 result.active_delegations stats.active_delegations;
  total_delegations = add64 result.total_delegations stats.total_delegations;
  total_stakers = add64 result.total_stakers stats.total_stakers;
}

module _ ⦃driver : Driver⦄ where
  open driver use {mongo}

  -- The callback, and whether its map of increments has the stakers and the providers: both stay in the map when
  -- the driver runs the callback again.
  unfoldable pub v2_increment_overall_stats_work :
      ℕ → (hash staker_pk fp_pk : String) → Uint64 → Work mongo
  v2_increment_overall_stats_work shard_count hash staker_pk fp_pk amount = do
    v2_update_stats_lock_by_field_name hash (to_string active) overall
    staker_stats ← find_v2_staker_stats staker_pk
    (if eqb staker_stats.active_delegations 1 then set_captured true else pure tt)
    fp_stats ← find_v2_provider_stats fp_pk
    (if eqb fp_stats.active_delegations 1 then set_captured_providers true else pure tt)
    shard_id ← generate_overall_stats_id shard_count
    stakers ← gets (λ w. w.captured)
    providers ← gets (λ w. w.captured_providers)
    upsert_v2_overall shard_id (active_increment amount) (record {
      active_stakers = when stakers 1;
      total_stakers = when stakers 1;
      active_finality_providers = when providers 1;
      total_finality_providers = when providers 1;
    })

  unfoldable pub v2_increment_overall_stats :
      ℕ → (hash staker_pk fp_pk : String) → Uint64 → Client driver (Unit {0})
  v2_increment_overall_stats shard_count hash staker_pk fp_pk amount = do
    start_session driver
    set_captured false
    set_captured_providers false
    driver.with_transaction
        (v2_increment_overall_stats_work shard_count hash staker_pk fp_pk amount)

  -- The provider is looked up by the staker's key, as the code does.
  unfoldable pub v2_subtract_overall_stats_work :
      ℕ → (hash staker_pk : String) → Uint64 → Work mongo
  v2_subtract_overall_stats_work shard_count hash staker_pk amount = do
    v2_update_stats_lock_by_field_name hash (to_string unbonded) overall
    staker_stats ← find_v2_staker_stats staker_pk
    (if eqb staker_stats.active_delegations 0 then set_captured true else pure tt)
    fp_stats ← find_v2_provider_stats staker_pk
    (if eqb fp_stats.active_delegations 0 then set_captured_providers true else pure tt)
    shard_id ← generate_overall_stats_id shard_count
    stakers ← gets (λ w. w.captured)
    providers ← gets (λ w. w.captured_providers)
    upsert_v2_overall shard_id (unbonded_decrement amount) (record {
      active_stakers = when stakers (neg64 1);
      total_stakers = 0;
      active_finality_providers = when providers (neg64 1);
      total_finality_providers = 0;
    })

  unfoldable pub v2_subtract_overall_stats :
      ℕ → (hash staker_pk : String) → Uint64 → Client driver (Unit {0})
  v2_subtract_overall_stats shard_count hash staker_pk amount = do
    start_session driver
    set_captured false
    set_captured_providers false
    driver.with_transaction (v2_subtract_overall_stats_work shard_count hash staker_pk amount)

  abbrev sum_found : (String → Option V2OverallStatsDocument) → List String → V2OverallStatsDocument
  sum_found find [] = no_v2_overall_stats ""
  sum_found find (id ∷ ids) = elim (find id) [
    | none ↦ sum_found find ids
    | some stats ↦ add_v2_overall stats (sum_found find ids)
  ]

  -- The documents are added in the order of the shards; the sum, which wraps, does not depend on it.
  unfoldable pub v2_get_overall_stats : ℕ → Client driver V2OverallStatsDocument
  unfolding shards_id add_v2_overall
  v2_get_overall_stats shard_count = call (
      query (λ db.
        sum_found (λ id. mongo.v2_overall_stats.find_one id (λ d. true) db.v2_overall_stats)
          (shards_id shard_count)))
