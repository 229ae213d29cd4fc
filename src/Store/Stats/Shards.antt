-- ===== src/Store/Stats/Shards.antt =====
-- `GetOverallStats` of internal/v1/db/client/stats.go
use staking_api_service.Base.{ℕ, zero, suc, String, true, Option, none, some, List, [], ◌∷◌}
use staking_api_service.Model.{add64, OverallStatsDocument}
use staking_api_service.Driver.{Driver, call}
use staking_api_service.Store.Access.{Client, query}
use staking_api_service.Store.Stats.{no_overall_stats}
use staking_api_service.Store.Stats.Sprint.{sprint}

-- the ids of the shards, the last one first
unfoldable pub shards_id : ℕ → List String
shards_id zero = []
shards_id (suc n) = sprint n ∷ shards_id n

-- one turn of the summing loop
unfoldable pub add_overall : OverallStatsDocument → OverallStatsDocument → OverallStatsDocument
add_overall stats result = record result {
  active_tvl = add64 result.active_tvl stats.active_tvl;
  total_tvl = add64 result.total_tvl stats.total_tvl;
  active_delegations = add64 result.active_delegations stats.active_delegations;
  total_delegations = add64 result.total_delegations stats.total_delegations;
  total_stakers = add64 result.total_stakers stats.total_stakers;
}

abbrev pub add_found : Option OverallStatsDocument → OverallStatsDocument → OverallStatsDocument
add_found none result = result
add_found (some stats) result = add_overall stats result

unfoldable pub sum_found :
    (String → Option OverallStatsDocument) → List String → OverallStatsDocument
unfolding add_overall
sum_found find [] = no_overall_stats ""
sum_found find (id ∷ ids) = add_found (find id) (sum_found find ids)

module _ ⦃driver : Driver⦄ where
  open driver use {mongo}

  -- The documents are added from the first shard on; the sum, which wraps, does not depend on the order.
  unfoldable pub get_overall_stats : ℕ → Client driver OverallStatsDocument
  unfolding shards_id sum_found
  get_overall_stats shard_count = call (
      query (λ db.
        sum_found (λ id. mongo.overall_stats.find_one id (λ d. true) db.overall_stats)
          (shards_id shard_count)))
