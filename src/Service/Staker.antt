-- ===== src/Service/Staker.antt =====
-- `ProcessAndSaveBtcAddresses` of internal/v1/service/staker.go
use staking_api_service.Base.{String}
use staking_api_service.Base.Exec.{pure, fail, try, lift}
use staking_api_service.Types.Errors.{bad_request, new_error_with_msg, new_internal_service_error}
use staking_api_service.Types.Errors.Status
use staking_api_service.Driver.{Driver}
use staking_api_service.Store.Others.{insert_pk_address_mappings}
use staking_api_service.Utils.Bitcoin.{Btc, derive_addresses_from_no_coord_pk}
use staking_api_service.Service.Delegations.{Service}

module _ ⦃driver : Driver⦄ ⦃btc : Btc⦄ where
  unfoldable pub process_and_save_btc_addresses : String → Service driver (Unit {0})
  process_and_save_btc_addresses staker_pk =
      try (lift (derive_addresses_from_no_coord_pk staker_pk))
        (λ e. fail (
          new_error_with_msg Status.bad_request bad_request
            "failed to derive addresses from staker pk"))
        (λ addresses.
          try
            (insert_pk_address_mappings staker_pk addresses.taproot addresses.native_segwit_odd
              addresses.native_segwit_even)
            (λ e. fail (new_internal_service_error e)) pure)
