-- ===== src/Service/Views.antt =====
-- The answers to queries of internal/v1/service/delegation.go and stats.go.
use staking_api_service.Base.{
  ℕ, String, Bool, Option, none, some, List, [], ◌∷◌, map, ◌==◌, if◌then◌else◌,
}
use staking_api_service.Base.Exec.{Result, ok, err, pure, fail, try}
use staking_api_service.Types.Errors.{
  GoError, Error, bad_request, is_invalid_pagination_token_error, is_not_found_error, new_error,
  new_internal_service_error,
}
use staking_api_service.Types.Errors.Status
use staking_api_service.Types.States.{DelegationState, to_string, active}
use staking_api_service.Model.{
  Int64, Uint64, sub64, TimelockTransaction, DelegationDocument, StatsDocument,
  OverallStatsDocument,
}
use staking_api_service.Driver.{Driver}
use staking_api_service.Store.BtcInfos.{get_latest_btc_info}
use staking_api_service.Store.Stats.{get_staker_stats}
use staking_api_service.Store.Stats.Shards.{get_overall_stats}
use staking_api_service.Reads.{Source, Json, Base64, DbResultMap}
use staking_api_service.Reads.Delegations.{
  DelegationFilter, DelegationByStakerPagination, find_delegations_by_staker_pk,
  check_delegation_exist_by_staker_pk,
}
use staking_api_service.Reads.Stats.{StakerStatsByStakerPagination, find_top_stakers_by_tvl}
use staking_api_service.Service.Params.{Config}
use staking_api_service.Service.Delegations.{Service}

pub record TransactionPublic : Type 0 where
  pub tx_hex : String
  pub output_index : Uint64
  pub start_timestamp : String
  pub start_height : Uint64
  pub time_lock : Uint64

pub record DelegationPublic : Type 0 where
  pub staking_tx_hash_hex : String
  pub staker_pk_hex : String
  pub finality_provider_pk_hex : String
  pub state : String
  pub staking_value : Uint64
  pub staking_tx : TransactionPublic
  pub unbonding_tx : Option TransactionPublic
  pub is_overflow : Bool

pub record OverallStatsPublic : Type 0 where
  pub active_tvl : Int64
  pub total_tvl : Int64
  pub active_delegations : Int64
  pub total_delegations : Int64
  pub total_stakers : Uint64
  pub unconfirmed_tvl : Uint64
  pub pending_tvl : Uint64

pub record StakerStatsPublic : Type 0 where
  pub staker_pk_hex : String
  pub active_tvl : Int64
  pub total_tvl : Int64
  pub active_delegations : Int64
  pub total_delegations : Int64

-- the items of a page, and its token
abbrev pub Page : Type 0 → Type 0
Page A = List A × String

abbrev pub page_error : GoError → Error
page_error e =
    if is_invalid_pagination_token_error e
    then new_error Status.bad_request bad_request e
    else new_internal_service_error e

abbrev pub page_of :
    {A B : Type 0} → (A → B) → Result GoError (DbResultMap A) → Result Error (Page B)
page_of f (ok result_map) = ok (map f result_map.items, result_map.pagination_token)
page_of f (err e) = err (page_error e)

-- `iso` is the time package's format.
module _ (iso : Int64 → String) where
  unfoldable pub transaction_public : TimelockTransaction → TransactionPublic
  transaction_public t = record {
    tx_hex = t.tx_hex;
    output_index = t.output_index;
    start_timestamp = iso t.start_timestamp;
    start_height = t.start_height;
    time_lock = t.time_lock;
  }

  abbrev unbonding_public : Option TimelockTransaction → Option TransactionPublic
  unbonding_public none = none
  unbonding_public (some t) = if t.tx_hex == "" then none else some (transaction_public t)

  unfoldable pub from_delegation_document : DelegationDocument → DelegationPublic
  unfolding transaction_public
  from_delegation_document d = record {
    staking_tx_hash_hex = d.staking_tx_hash_hex;
    staker_pk_hex = d.staker_pk_hex;
    finality_provider_pk_hex = d.finality_provider_pk_hex;
    state = to_string d.state;
    staking_value = d.staking_value;
    staking_tx = transaction_public d.staking_tx;
    unbonding_tx = unbonding_public d.unbonding_tx;
    is_overflow = d.is_overflow;
  }

  -- the filter of a query; no state is the empty text
  abbrev pub state_filter : Option DelegationState → DelegationFilter
  state_filter none = record { after_timestamp = 0; states = none }
  state_filter (some state) = record { after_timestamp = 0; states = some (state ∷ []) }

  unfoldable pub delegations_by_staker_pk :
      ⦃base64 : Base64⦄ ⦃by_staker : Json DelegationByStakerPagination⦄
      → Source DelegationDocument
      → (max_pagination_limit : ℕ) → (staker_pk : String) → Option DelegationState
      → (page_token : String) → Result Error (Page DelegationPublic)
  unfolding from_delegation_document
  delegations_by_staker_pk source max_pagination_limit staker_pk state page_token =
      page_of from_delegation_document (
        find_delegations_by_staker_pk source max_pagination_limit staker_pk
          (some (state_filter state)) page_token)

abbrev or_internal : {A : Type 0} → Result GoError A → Result Error A
or_internal (ok a) = ok a
or_internal (err e) = err (new_internal_service_error e)

unfoldable pub check_staker_has_active_delegation_by_pk :
    Source DelegationDocument → (staker_pk : String) → (after_timestamp : Int64) → Result Error Bool
check_staker_has_active_delegation_by_pk source staker_pk after_timestamp = or_internal (
    check_delegation_exist_by_staker_pk source staker_pk
      (some (record { after_timestamp = after_timestamp; states = some (active ∷ []) })))

unfoldable pub staker_stats_public : StatsDocument → StakerStatsPublic
staker_stats_public d = record {
  staker_pk_hex = d.id;
  active_tvl = d.active_tvl;
  total_tvl = d.total_tvl;
  active_delegations = d.active_delegations;
  total_delegations = d.total_delegations;
}

unfoldable pub get_top_stakers_by_active_tvl :
    ⦃base64 : Base64⦄ ⦃by_tvl : Json StakerStatsByStakerPagination⦄
    → Source StatsDocument
    → (max_pagination_limit : ℕ) → (page_token : String) → Result Error (Page StakerStatsPublic)
unfolding staker_stats_public
get_top_stakers_by_active_tvl source max_pagination_limit page_token =
    page_of staker_stats_public (find_top_stakers_by_tvl source max_pagination_limit page_token)

-- `int64(confirmedTvl)` has the same bits.
abbrev pub overall_public :
    OverallStatsDocument → (confirmed_tvl unconfirmed_tvl pending_tvl : Uint64) → OverallStatsPublic
overall_public stats confirmed_tvl unconfirmed_tvl pending_tvl = record {
  active_tvl = confirmed_tvl;
  total_tvl = stats.total_tvl;
  active_delegations = stats.active_delegations;
  total_delegations = stats.total_delegations;
  total_stakers = stats.total_stakers;
  unconfirmed_tvl = unconfirmed_tvl;
  pending_tvl = pending_tvl;
}

module _ ⦃driver : Driver⦄ where
  unfoldable pub get_overall_stats_public : Config → Service driver OverallStatsPublic
  get_overall_stats_public cfg =
      try (get_overall_stats cfg.logical_shard_count) (λ e. fail (new_internal_service_error e))
        (λ stats.
          try get_latest_btc_info
            (λ e.
              if is_not_found_error e
              then pure (overall_public stats 0 0 0)
              else fail (new_internal_service_error e))
            (λ btc_info. pure (
              overall_public stats btc_info.confirmed_tvl btc_info.unconfirmed_tvl
                (sub64 btc_info.unconfirmed_tvl btc_info.confirmed_tvl))))

  unfoldable pub get_staker_stats_public : String → Service driver (Option StakerStatsPublic)
  unfolding staker_stats_public
  get_staker_stats_public staker_pk_hex =
      try (get_staker_stats staker_pk_hex)
        (λ e. if is_not_found_error e then pure none else fail (new_internal_service_error e))
        (λ stats.
          pure (some (record (staker_stats_public stats) { staker_pk_hex = staker_pk_hex })))
