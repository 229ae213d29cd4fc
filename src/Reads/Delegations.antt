-- ===== src/Reads/Delegations.antt =====
-- The reads of delegations in internal/v1/db/client/delegation.go, and their tokens in
-- internal/v1/db/model/delegation.go. The driver refuses to store a height from 2 ^ 63 on, so that the
-- stored ones compare as numbers.
pub mod Walks
pub mod Complete
pub mod Filtered
use staking_api_service.Base.{
  ℕ, ◌+◌, ◌%◌, ◌^◌, String, Bool, true, false, ◌&&◌, ◌||◌, ◌==◌, Option, some, none, List, eqb, ltb,
  leb, if◌then◌else◌,
}
use staking_api_service.Base.Exec.{Result, ok, err}
use staking_api_service.Base.Texts.{text_ltb}
use staking_api_service.Types.Errors.{GoError, invalid_pagination_token, is_no_documents}
use staking_api_service.Types.States.{DelegationState, contains}
use staking_api_service.Model.{Int64, Uint64, word, DelegationDocument}
use staking_api_service.Utils.Bitcoin.{◌>>=◌}
use staking_api_service.Reads.{
  Source, Json, Base64, DbResultMap, get_pagination_token, decode_pagination_token, find_one,
  find_with_pagination,
}

pub record DelegationFilter : Type 0 where
  pub after_timestamp : Int64
  pub states : Option (List DelegationState)

pub record DelegationByStakerPagination : Type 0 where
  pub staking_tx_hash_hex : String
  pub staking_start_height : Uint64

pub record DelegationScanPagination : Type 0 where
  pub staking_tx_hash_hex : String

-- the order of int64
abbrev pub signed_leb : Int64 → Int64 → Bool
signed_leb a b = leb ((a + 2 ^ 63) % word) ((b + 2 ^ 63) % word)

abbrev pub Filter : Type 0
Filter = DelegationDocument → Bool

abbrev pub in_states : Option (List DelegationState) → Filter
in_states none d = true
in_states (some states) d = contains states d.state

abbrev pub started_from : Int64 → Filter
started_from after_timestamp d =
    if eqb after_timestamp 0 then true else signed_leb after_timestamp d.staking_tx.start_timestamp

unfoldable pub build_additional_delegation_filter : Filter → Option DelegationFilter → Filter
build_additional_delegation_filter base_filter none d = base_filter d
build_additional_delegation_filter base_filter (some filters) d =
    base_filter d && in_states filters.states d && started_from filters.after_timestamp d

-- the sort of `FindDelegationsByStakerPk`
abbrev pub by_start_height : DelegationDocument → DelegationDocument → Bool
by_start_height a b =
    ltb b.staking_tx.start_height a.staking_tx.start_height
    || (eqb b.staking_tx.start_height a.staking_tx.start_height
        && text_ltb a.staking_tx_hash_hex b.staking_tx_hash_hex)

abbrev pub by_id : DelegationDocument → DelegationDocument → Bool
by_id a b = text_ltb a.staking_tx_hash_hex b.staking_tx_hash_hex

unfoldable pub page_of_staker : String → DelegationByStakerPagination → Filter
page_of_staker staker_pk decoded_token d =
    (d.staker_pk_hex == staker_pk
      && ltb d.staking_tx.start_height decoded_token.staking_start_height)
    || (d.staker_pk_hex == staker_pk
        && eqb d.staking_tx.start_height decoded_token.staking_start_height
        && text_ltb decoded_token.staking_tx_hash_hex d.staking_tx_hash_hex)

abbrev pub or_invalid_token : {T : Type 0} → Result GoError T → Result GoError T
or_invalid_token (ok t) = ok t
or_invalid_token (err e) = err (invalid_pagination_token "Invalid pagination token")

module _ ⦃base64 : Base64⦄ ⦃by_staker : Json DelegationByStakerPagination⦄ where
  unfoldable pub build_delegation_by_staker_pagination_token :
      DelegationDocument → Result GoError String
  unfolding get_pagination_token
  build_delegation_by_staker_pagination_token d =
      get_pagination_token {T = DelegationByStakerPagination} (record {
        staking_tx_hash_hex = d.staking_tx_hash_hex;
        staking_start_height = d.staking_tx.start_height;
      })

  unfoldable pub find_delegations_by_staker_pk :
      Source DelegationDocument
      → (max_pagination_limit : ℕ) → (staker_pk : String) → Option DelegationFilter
      → (pagination_token : String) → Result GoError (DbResultMap DelegationDocument)
  find_delegations_by_staker_pk source max_pagination_limit staker_pk extra_filter
        pagination_token =
      let filter =
        build_additional_delegation_filter (λ d. d.staker_pk_hex == staker_pk) extra_filter in
      do
        page_filter ←
            (if pagination_token == "" then ok filter else do
              decoded_token ← or_invalid_token (decode_pagination_token pagination_token)
              ok (page_of_staker staker_pk decoded_token))
        find_with_pagination source page_filter by_start_height max_pagination_limit
            build_delegation_by_staker_pagination_token

module _ ⦃base64 : Base64⦄ ⦃scan : Json DelegationScanPagination⦄ where
  unfoldable pub build_delegation_scan_pagination_token : DelegationDocument → Result GoError String
  unfolding get_pagination_token
  build_delegation_scan_pagination_token d =
      get_pagination_token {T = DelegationScanPagination}
        (record { staking_tx_hash_hex = d.staking_tx_hash_hex })

  unfoldable pub scan_delegations_paginated :
      Source DelegationDocument
      → (max_pagination_limit : ℕ) → (pagination_token : String)
      → Result GoError (DbResultMap DelegationDocument)
  scan_delegations_paginated source max_pagination_limit pagination_token = do
    filter ←
        (if pagination_token == "" then ok (λ d. true) else do
          decoded_token ←
              or_invalid_token {T = DelegationScanPagination}
                (decode_pagination_token pagination_token)
          ok (λ d. text_ltb decoded_token.staking_tx_hash_hex d.staking_tx_hash_hex))
    find_with_pagination source filter by_id max_pagination_limit
        build_delegation_scan_pagination_token

existing : Result GoError DelegationDocument → Result GoError Bool
existing (ok delegation) = ok true
existing (err e) = if is_no_documents e then ok false else err e

unfoldable pub check_delegation_exist_by_staker_pk :
    Source DelegationDocument → (staker_pk : String) → Option DelegationFilter → Result GoError Bool
unfolding existing
check_delegation_exist_by_staker_pk source staker_pk extra_filter = existing (
    find_one source
      (build_additional_delegation_filter (λ d. d.staker_pk_hex == staker_pk) extra_filter))
