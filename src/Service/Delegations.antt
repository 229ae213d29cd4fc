-- ===== src/Service/Delegations.antt =====
-- internal/v1/service/delegation.go: the operations that the queue handlers call.
use staking_api_service.Base.{String, Bool, true, false, if◌then◌else◌}
use staking_api_service.Base.Exec.{Exec, pure, fail, try}
use staking_api_service.Types.Errors.{
  Error, not_found, is_duplicate_key_error, is_not_found_error, new_error_with_msg,
  new_internal_service_error,
}
use staking_api_service.Types.Errors.Status
use staking_api_service.Model.{Uint64, Int64, DelegationDocument}
use staking_api_service.Driver.{Driver, World}
use staking_api_service.Store.Delegations.{
  save_active_staking_delegation, find_delegation_by_tx_hash_hex,
}

-- a part of a service, which may fail with a `*types.Error`
abbrev pub Service : Driver → Type 0 → Type 0
Service d A = Exec (World d.mongo) Error A

module _ ⦃driver : Driver⦄ where
  -- An event whose delegation is there already is skipped.
  unfoldable pub save_active_staking :
      (hash staker_pk fp_pk : String) (value start_height : Uint64)
      → Int64
      → (time_lock output_index : Uint64) → String
      → Bool
      → Service driver (Unit {0})
  save_active_staking hash staker_pk fp_pk value start_height timestamp time_lock output_index
        tx_hex is_overflow =
      try
        (save_active_staking_delegation hash staker_pk fp_pk tx_hex value start_height time_lock
          output_index timestamp is_overflow)
        (λ e. if is_duplicate_key_error e then pure tt else fail (new_internal_service_error e))
        pure

  unfoldable pub is_delegation_present : String → Service driver Bool
  is_delegation_present hash =
      try (find_delegation_by_tx_hash_hex hash)
        (λ e. if is_not_found_error e then pure false else fail (new_internal_service_error e))
        (λ d. pure true)

  unfoldable pub get_delegation : String → Service driver DelegationDocument
  get_delegation hash =
      try (find_delegation_by_tx_hash_hex hash)
        (λ e. fail (
          if is_not_found_error e
          then new_error_with_msg Status.not_found not_found
              "staking delegation not found, please retry"
          else new_internal_service_error e))
        pure
