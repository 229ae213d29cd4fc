-- ===== src/Tests/StatsTests.antt =====
-- The theorems on statistics, at an empty database and at two finality providers
use mathlib.Core.List.{Memᴰ}
use staking_api_service.Base.{
  ℕ, ◌<◌, String, true, false, ◌≡◌, ◌≢◌, ◌↔◌, refl, sym, ◌∙◌, ap, List, [], ◌∷◌, arith,
}
use staking_api_service.Base.Exec.{ok}
use staking_api_service.Model.{StatsDocument}
use staking_api_service.Store.V2Stats.Unchanged.{
  LocksAsMade, SameStats, V2Update, increment_provider, increment_overall, update,
}
use staking_api_service.Store.V2Stats.Frozen.{V2Task, stats_lock, stats_update, run, run-SameStats}
use staking_api_service.Reads.{Source, length}
use staking_api_service.Reads.Order.{Ascending}
use staking_api_service.Reads.Stats.{
  signed, by_active_tvl, find_finality_provider_stats, find_top_stakers_by_tvl,
}
use staking_api_service.Reads.Stats.Walks.{
  DistinctTvl, find_finality_provider_stats-Complete, find_top_stakers_by_tvl-Complete,
}
use staking_api_service.Reads.Delegations.Complete.{read_all}
use staking_api_service.Service.FinalityProviders.{
  FinalityProviderDetails, FpParamsPublic, is_empty, get_finality_providers,
  get_finality_providers_from_global_params,
}
use staking_api_service.Service.FinalityProviders.Walk.{Walked, shown}
use staking_api_service.Service.FinalityProviders.Listed.{
  listing, Listed, get_finality_providers-Walked,
}
use staking_api_service.Tests.Memory.{memory, empty_world}
use staking_api_service.Tests.Sources.{plain, provider_json, staker_json}
use staking_api_service.Tests.Collections.{stored}

abbrev tasks : List V2Task
tasks = stats_lock "h" "active" ∷ stats_update (increment_provider "h" "provider" 100) ∷ []

abbrev overall_update : V2Update
overall_update = increment_overall 2 "h" "staker" "provider" 100

no_locks : LocksAsMade ⦃driver = memory⦄ empty_world.visible
no_locks id = tt

run-SameStats_example :
    SameStats ⦃driver = memory⦄ empty_world.visible
      (run ⦃driver = memory⦄ tasks empty_world).visible
    × ((update ⦃driver = memory⦄ overall_update (run ⦃driver = memory⦄ tasks empty_world)).0
        ≢ ok tt)
run-SameStats_example = run-SameStats ⦃driver = memory⦄ tasks overall_update empty_world no_locks

abbrev provider_stats : String → ℕ → StatsDocument
provider_stats pk tvl = record {
  id = pk;
  active_tvl = tvl;
  total_tvl = tvl;
  active_delegations = 1;
  total_delegations = 1;
}

abbrev docs : List StatsDocument
docs = provider_stats "a" 5 ∷ provider_stats "b" 8 ∷ []

abbrev source : Source StatsDocument
source = stored docs

distinct : DistinctTvl docs
distinct a b (Memᴰ.head e) (Memᴰ.head f) h = e ∙ sym f
distinct a b (Memᴰ.head e) (Memᴰ.tail (Memᴰ.head f)) h =
    absurd (differ _ _ (ap (λ d. d.active_tvl) e) (ap (λ d. d.active_tvl) f) h)
  where
    differ : (x y : ℕ) → x ≡ 5 → y ≡ 8 → signed x ≡ signed y → ⊥
    differ x y e f h = omega (arith, e, f, h)
distinct a b (Memᴰ.tail (Memᴰ.head e)) (Memᴰ.head f) h =
    absurd (differ _ _ (ap (λ d. d.active_tvl) e) (ap (λ d. d.active_tvl) f) h)
  where
    differ : (x y : ℕ) → x ≡ 8 → y ≡ 5 → signed x ≡ signed y → ⊥
    differ x y e f h = omega (arith, e, f, h)
distinct a b (Memᴰ.tail (Memᴰ.head e)) (Memᴰ.tail (Memᴰ.head f)) h = e ∙ sym f
distinct a b (Memᴰ.tail (Memᴰ.tail m)) n h = elim m [ ]
distinct a b m (Memᴰ.tail (Memᴰ.tail n)) h = elim n [ ]

one : 0 < 1
one = omega arith

two : 0 < 2
two = omega arith

enough : length (source.rows (λ d. true) by_active_tvl) < 3
enough = omega arith

abbrev sorted : List StatsDocument
sorted = provider_stats "b" 8 ∷ provider_stats "a" 5 ∷ []

find_finality_provider_stats-Complete_example :
    (read_all 3 (find_finality_provider_stats ⦃base64 = plain⦄ ⦃json = provider_json⦄ source 1)
      ≡ (ok tt, sorted))
    × Ascending by_active_tvl sorted
    × ((d : StatsDocument) → Memᴰ d sorted ↔ Memᴰ d docs)
find_finality_provider_stats-Complete_example =
    find_finality_provider_stats-Complete source distinct 1 refl ⦃base64 = plain⦄ one
      ⦃json = provider_json⦄ 3 enough

find_top_stakers_by_tvl-Complete_example :
    (read_all 3 (find_top_stakers_by_tvl ⦃base64 = plain⦄ ⦃json = staker_json⦄ source 1)
      ≡ (ok tt, sorted))
    × Ascending by_active_tvl sorted
    × ((d : StatsDocument) → Memᴰ d sorted ↔ Memᴰ d docs)
find_top_stakers_by_tvl-Complete_example =
    find_top_stakers_by_tvl-Complete source distinct 1 refl ⦃base64 = plain⦄ one
      ⦃json = staker_json⦄ 3 enough

abbrev registry : List FinalityProviderDetails
registry =
    record {
      description = record {
        moniker = "c";
        identity = "";
        website = "";
        security_contact = "";
        details = "";
      };
      commission = "0.05";
      btc_pk = "c";
    }
    ∷ []

configured : is_empty (get_finality_providers_from_global_params registry) ≡ false
unfolding get_finality_providers_from_global_params
configured = refl

get_finality_providers-Walked_example :
    let items =
      listing source distinct 1 one refl ⦃base64 = plain⦄ ⦃by_tvl = provider_json⦄ registry
        configured in
    let params = get_finality_providers_from_global_params registry in
    Walked
      (get_finality_providers ⦃base64 = plain⦄ ⦃by_tvl = provider_json⦄ source 1 registry)
      ""
      items
    × ((d : StatsDocument) → Memᴰ d docs → Memᴰ (shown params d) items)
    × ((fp : FpParamsPublic) → Memᴰ fp params → Listed fp.btc_pk items)
get_finality_providers-Walked_example =
    get_finality_providers-Walked source distinct 1 one refl ⦃base64 = plain⦄
      ⦃by_tvl = provider_json⦄ registry configured
