-- ===== src/Reads/Stats.antt =====
-- The reads of the statistics of finality providers and stakers, in internal/v1/db/client/stats.go and
-- internal/v2/db/client/stats.go, and their tokens in the two db/model/stats.go. The four reads of
-- pages differ in their collections, and the tokens in the JSON name of the key.
pub mod Walks
use staking_api_service.Base.{
  ℕ, ◌+◌, ◌%◌, ◌^◌, String, Bool, true, false, ◌&&◌, ◌||◌, ◌==◌, List, [], ◌∷◌, eqb, ltb,
  if◌then◌else◌,
}
use staking_api_service.Base.Exec.{Result, ok, err}
use staking_api_service.Base.Texts.{text_ltb}
use staking_api_service.Types.Errors.{GoError}
use staking_api_service.Model.{Int64, word, StatsDocument}
use staking_api_service.Utils.Bitcoin.{◌>>=◌}
use staking_api_service.Reads.{
  Source, Json, Base64, DbResultMap, get_pagination_token, decode_pagination_token, find_unsorted,
  find_with_pagination,
}
use staking_api_service.Reads.Delegations.{or_invalid_token}

pub record FinalityProviderStatsPagination : Type 0 where
  pub finality_provider_pk_hex : String
  pub active_tvl : Int64

pub record StakerStatsByStakerPagination : Type 0 where
  pub staker_pk_hex : String
  pub active_tvl : Int64

-- the place of an int64 in its order
abbrev pub signed : Int64 → ℕ
signed a = (a + 2 ^ 63) % word

-- the sort: `active_tvl` alone, from the greatest on
abbrev pub by_active_tvl : StatsDocument → StatsDocument → Bool
by_active_tvl a b = ltb (signed b.active_tvl) (signed a.active_tvl)

-- the `$or` of a later page
unfoldable pub page_by_tvl : String → Int64 → StatsDocument → Bool
page_by_tvl pk_hex active_tvl d =
    ltb (signed d.active_tvl) (signed active_tvl)
    || (eqb d.active_tvl active_tvl && text_ltb d.id pk_hex)

abbrev pub is_one_of : List String → String → Bool
is_one_of [] s = false
is_one_of (x ∷ l) s = x == s || is_one_of l s

unfoldable pub find_finality_provider_stats_by_finality_provider_pk_hex :
    Source StatsDocument → List String → Result GoError (List StatsDocument)
unfolding find_unsorted
find_finality_provider_stats_by_finality_provider_pk_hex source finality_provider_pk_hex =
    find_unsorted source (λ d. is_one_of finality_provider_pk_hex d.id)

unfoldable pub v2_find_finality_provider_stats_by_finality_provider_pk_hex :
    Source StatsDocument → List String → Result GoError (List StatsDocument)
unfolding find_unsorted
v2_find_finality_provider_stats_by_finality_provider_pk_hex source finality_provider_pk_hex =
    find_unsorted source (λ d. is_one_of finality_provider_pk_hex d.id)

module _ ⦃base64 : Base64⦄ ⦃json : Json FinalityProviderStatsPagination⦄ where
  unfoldable pub build_finality_provider_stats_pagination_token :
      StatsDocument → Result GoError String
  build_finality_provider_stats_pagination_token d =
      get_pagination_token {T = FinalityProviderStatsPagination}
        (record { finality_provider_pk_hex = d.id; active_tvl = d.active_tvl })

  unfoldable pub find_finality_provider_stats :
      Source StatsDocument
      → (max_pagination_limit : ℕ) → (pagination_token : String)
      → Result GoError (DbResultMap StatsDocument)
  unfolding page_by_tvl
  find_finality_provider_stats source max_pagination_limit pagination_token = do
    filter ←
        (if pagination_token == "" then ok (λ d. true) else do
          decoded_token ←
              or_invalid_token {T = FinalityProviderStatsPagination}
                (decode_pagination_token pagination_token)
          ok (page_by_tvl decoded_token.finality_provider_pk_hex decoded_token.active_tvl))
    find_with_pagination source filter by_active_tvl max_pagination_limit
        build_finality_provider_stats_pagination_token

  unfoldable pub build_v2_finality_provider_stats_pagination_token :
      StatsDocument → Result GoError String
  unfolding build_finality_provider_stats_pagination_token
  build_v2_finality_provider_stats_pagination_token d =
      build_finality_provider_stats_pagination_token d

  unfoldable pub v2_find_finality_provider_stats :
      Source StatsDocument
      → (max_pagination_limit : ℕ) → (pagination_token : String)
      → Result GoError (DbResultMap StatsDocument)
  unfolding find_finality_provider_stats
  v2_find_finality_provider_stats source max_pagination_limit pagination_token =
      find_finality_provider_stats source max_pagination_limit pagination_token

module _ ⦃base64 : Base64⦄ ⦃json : Json StakerStatsByStakerPagination⦄ where
  unfoldable pub build_staker_stats_by_staker_pagination_token :
      StatsDocument → Result GoError String
  build_staker_stats_by_staker_pagination_token d =
      get_pagination_token {T = StakerStatsByStakerPagination}
        (record { staker_pk_hex = d.id; active_tvl = d.active_tvl })

  unfoldable pub find_top_stakers_by_tvl :
      Source StatsDocument
      → (max_pagination_limit : ℕ) → (pagination_token : String)
      → Result GoError (DbResultMap StatsDocument)
  unfolding page_by_tvl
  find_top_stakers_by_tvl source max_pagination_limit pagination_token = do
    filter ←
        (if pagination_token == "" then ok (λ d. true) else do
          decoded_token ←
              or_invalid_token {T = StakerStatsByStakerPagination}
                (decode_pagination_token pagination_token)
          ok (page_by_tvl decoded_token.staker_pk_hex decoded_token.active_tvl))
    find_with_pagination source filter by_active_tvl max_pagination_limit
        build_staker_stats_by_staker_pagination_token
