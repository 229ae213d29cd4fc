-- ===== src/Service/FinalityProviders.antt =====
-- internal/v1/service/finality_provider.go
pub mod Walk
pub mod Listed
use staking_api_service.Base.{
  ℕ, String, Bool, true, false, not, Option, none, some, List, [], ◌∷◌, ◌++◌, map, ◌==◌, ◌&&◌, ◌||◌,
  if◌then◌else◌,
}
use staking_api_service.Base.Exec.{Result, ok, err}
use staking_api_service.Types.Errors.{
  GoError, Error, bad_request, internal_service_error, is_invalid_pagination_token_error, new_error,
  new_error_with_msg, new_internal_service_error,
}
use staking_api_service.Types.Errors.Status
use staking_api_service.Model.{Int64, StatsDocument}
use staking_api_service.Utils.Bitcoin.{◌>>=◌}
use staking_api_service.Reads.{Source, Json, Base64, DbResultMap}
use staking_api_service.Reads.Stats.{
  FinalityProviderStatsPagination, find_finality_provider_stats,
  find_finality_provider_stats_by_finality_provider_pk_hex,
}
use staking_api_service.Service.Views.{Page}

-- `FinalityProviderDescription` of internal/shared/types/finality_providers.go
pub record FinalityProviderDescription : Type 0 where
  pub moniker : String
  pub identity : String
  pub website : String
  pub security_contact : String
  pub details : String

-- `FinalityProviderDetails` of the same file, which is loaded from the providers' file
pub record FinalityProviderDetails : Type 0 where
  pub description : FinalityProviderDescription
  pub commission : String
  pub btc_pk : String

pub record FpDescriptionPublic : Type 0 where
  pub moniker : String
  pub identity : String
  pub website : String
  pub security_contact : String
  pub details : String

pub record FpDetailsPublic : Type 0 where
  pub description : FpDescriptionPublic
  pub commission : String
  pub btc_pk : String
  pub active_tvl : Int64
  pub total_tvl : Int64
  pub active_delegations : Int64
  pub total_delegations : Int64

pub record FpParamsPublic : Type 0 where
  pub description : FpDescriptionPublic
  pub commission : String
  pub btc_pk : String

abbrev pub empty_fp_description_public : FpDescriptionPublic
empty_fp_description_public = record {
  moniker = "";
  identity = "";
  website = "";
  security_contact = "";
  details = "";
}

abbrev params_public : FinalityProviderDetails → FpParamsPublic
params_public finality_provider = record {
  description = record {
    moniker = finality_provider.description.moniker;
    identity = finality_provider.description.identity;
    website = finality_provider.description.website;
    security_contact = finality_provider.description.security_contact;
    details = finality_provider.description.details;
  };
  commission = finality_provider.commission;
  btc_pk = finality_provider.btc_pk;
}

unfoldable pub get_finality_providers_from_global_params :
    List FinalityProviderDetails → List FpParamsPublic
get_finality_providers_from_global_params finality_providers = map params_public finality_providers

-- a provider without statistics
abbrev pub without_stats : FpParamsPublic → FpDetailsPublic
without_stats fp = record {
  description = fp.description;
  commission = fp.commission;
  btc_pk = fp.btc_pk;
  active_tvl = 0;
  total_tvl = 0;
  active_delegations = 0;
  total_delegations = 0;
}

unfoldable pub build_fallback_fp_details_public : List FpParamsPublic → List FpDetailsPublic
build_fallback_fp_details_public fp_params = map without_stats fp_params

-- what is shown of a provider with statistics, beside its parameters if it is registered
abbrev pub with_stats : StatsDocument → Option FpParamsPublic → FpDetailsPublic
with_stats fp_stat none = record {
  description = empty_fp_description_public;
  commission = "";
  btc_pk = fp_stat.id;
  active_tvl = fp_stat.active_tvl;
  total_tvl = fp_stat.total_tvl;
  active_delegations = fp_stat.active_delegations;
  total_delegations = fp_stat.total_delegations;
}
with_stats fp_stat (some fp) = record {
  description = fp.description;
  commission = fp.commission;
  btc_pk = fp_stat.id;
  active_tvl = fp_stat.active_tvl;
  total_tvl = fp_stat.total_tvl;
  active_delegations = fp_stat.active_delegations;
  total_delegations = fp_stat.total_delegations;
}

-- the loops that stop at the first provider with the key
unfoldable pub first_with : List FpParamsPublic → String → Option FpParamsPublic
first_with [] pk = none
first_with (fp ∷ fp_params) pk = if fp.btc_pk == pk then some fp else first_with fp_params pk

abbrev or_if : Option FpParamsPublic → Bool → FpParamsPublic → Option FpParamsPublic
or_if (some later) b fp = some later
or_if none b fp = if b then some fp else none

-- `fpParamsMap`, in which a later provider replaces an earlier one with the same key
unfoldable pub fp_params_map : List FpParamsPublic → String → Option FpParamsPublic
fp_params_map [] pk = none
fp_params_map (fp ∷ fp_params) pk = or_if (fp_params_map fp_params pk) (fp.btc_pk == pk) fp

abbrev pub map_option : Option FpParamsPublic → Option FpDetailsPublic
map_option none = none
map_option (some fp) = some (without_stats fp)

abbrev provider_of :
    List FpParamsPublic
    → String
    → Result GoError (List StatsDocument)
    → Result Error (Option FpDetailsPublic)
provider_of fp_params pk (err e) = err (new_internal_service_error e)
provider_of fp_params pk (ok []) = ok (map_option (first_with fp_params pk))
provider_of fp_params pk (ok (fp_stat ∷ [])) =
    ok (some (with_stats fp_stat (first_with fp_params fp_stat.id)))
provider_of fp_params pk (ok (fp_stat ∷ other ∷ rest)) = err (
    new_error_with_msg Status.internal_server_error internal_service_error
      "Found more than one finality provider with the same pk")

unfoldable pub get_finality_provider :
    Source StatsDocument
    → List FinalityProviderDetails
    → (fp_pk_hex : String) → Result Error (Option FpDetailsPublic)
unfolding get_finality_providers_from_global_params first_with
get_finality_provider source finality_providers fp_pk_hex =
    provider_of (get_finality_providers_from_global_params finality_providers) fp_pk_hex
      (find_finality_provider_stats_by_finality_provider_pk_hex source (fp_pk_hex ∷ []))

-- `fpStatsByPksMap[pk] != nil`
unfoldable pub has_stats : List StatsDocument → String → Bool
has_stats [] pk = false
has_stats (d ∷ l) pk = d.id == pk || has_stats l pk

unfoldable pub not_in_use : List StatsDocument → List FpParamsPublic → List FpDetailsPublic
unfolding has_stats
not_in_use fp_stats [] = []
not_in_use fp_stats (fp ∷ fp_params) =
    let fps = not_in_use fp_stats fp_params in
    if has_stats fp_stats fp.btc_pk then fps else without_stats fp ∷ fps

unfoldable pub find_registered_finality_providers_not_in_use :
    Source StatsDocument → List FpParamsPublic → Result GoError (List FpDetailsPublic)
unfolding not_in_use
find_registered_finality_providers_not_in_use source fp_params = do
  fp_stats_by_pks ←
      find_finality_provider_stats_by_finality_provider_pk_hex source
        (map (λ fp. fp.btc_pk) fp_params)
  ok (not_in_use fp_stats_by_pks fp_params)

abbrev pub is_empty : {A : Type 0} → List A → Bool
is_empty [] = true
is_empty (x ∷ l) = false

abbrev pub last_page :
    List FpDetailsPublic
    → Result GoError (List FpDetailsPublic)
    → Result Error (Page FpDetailsPublic)
last_page details (ok fps_not_in_use) = ok (details ++ fps_not_in_use, "")
last_page details (err e) = err (new_error Status.internal_server_error internal_service_error e)

module _ (source : Source StatsDocument) (fp_params : List FpParamsPublic) where
  -- what is made of the statistics that were read, or of the error
  unfoldable pub providers_page :
      String → Result GoError (DbResultMap StatsDocument) → Result Error (Page FpDetailsPublic)
  unfolding build_fallback_fp_details_public fp_params_map
      find_registered_finality_providers_not_in_use
  providers_page page (err e) =
      if is_invalid_pagination_token_error e
      then err (new_error Status.bad_request bad_request e)
      else ok (build_fallback_fp_details_public fp_params, "")
  providers_page page (ok result_map) =
      let details = map (λ d. with_stats d (fp_params_map fp_params d.id)) result_map.items in
      if is_empty result_map.items && page == ""
      then ok (build_fallback_fp_details_public fp_params, "")
      else if result_map.pagination_token == ""
      then last_page details (find_registered_finality_providers_not_in_use source fp_params)
      else ok (details, result_map.pagination_token)

unfoldable pub get_finality_providers :
    ⦃base64 : Base64⦄ ⦃by_tvl : Json FinalityProviderStatsPagination⦄
    → Source StatsDocument
    → (max_pagination_limit : ℕ) → List FinalityProviderDetails
    → (page : String) → Result Error (Page FpDetailsPublic)
unfolding get_finality_providers_from_global_params providers_page
get_finality_providers source max_pagination_limit finality_providers page =
    let fp_params = get_finality_providers_from_global_params finality_providers in
    if is_empty fp_params
    then err (
        new_error_with_msg Status.internal_server_error internal_service_error
          "No finality providers found from global params")
    else providers_page source fp_params page
        (find_finality_provider_stats source max_pagination_limit page)
