-- ===== src/Scripts/Backfill.antt =====
-- cmd/staking-api-service/scripts/pubkey_address_backfill.go, from an open database connection on.
use staking_api_service.Base.{ℕ, String}
use staking_api_service.Base.Exec.{pure, fail, lift, try}
use staking_api_service.Types.Errors.{text}
use staking_api_service.Model.{DelegationDocument}
use staking_api_service.Driver.{Driver}
use staking_api_service.Store.Access.{Client}
use staking_api_service.Store.Others.{insert_pk_address_mappings}
use staking_api_service.Utils.Bitcoin.{Btc, SupportedAddress, derive_addresses_from_no_coord_pk}
use staking_api_service.Reads.{Source, Json, Base64, for_pages}
use staking_api_service.Reads.Delegations.{DelegationScanPagination, scan_delegations_paginated}

module _ ⦃driver : Driver⦄ where
  unfoldable pub save_addresses : String → SupportedAddress → Client driver (Unit {0})
  save_addresses staker_pk addresses =
      try
        (insert_pk_address_mappings staker_pk addresses.taproot addresses.native_segwit_odd
          addresses.native_segwit_even)
        (λ e. fail (text "failed to save btc addresses")) pure

  module _ ⦃btc : Btc⦄ where
    unfoldable pub backfill_delegation : DelegationDocument → Client driver (Unit {0})
    unfolding save_addresses
    backfill_delegation delegation =
        try (lift (derive_addresses_from_no_coord_pk delegation.staker_pk_hex))
          (λ e. fail (text "failed to derive btc addresses"))
          (save_addresses delegation.staker_pk_hex)

    -- `n` bounds the number of pages.
    unfoldable pub backfill_pubkey_addresses_mappings :
        ⦃base64 : Base64⦄ ⦃scan : Json DelegationScanPagination⦄
        → ℕ
        → Source DelegationDocument
        → (max_pagination_limit : ℕ) → Client driver (Unit {0})
    unfolding backfill_delegation
    backfill_pubkey_addresses_mappings n source max_pagination_limit =
        for_pages n (scan_delegations_paginated source max_pagination_limit) backfill_delegation ""
