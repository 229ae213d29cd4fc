-- ===== src/Store/Delegations.antt =====
-- internal/v1/db/client/delegation.go
pub mod Outcomes
use staking_api_service.Base.{String, Bool, true, none, List, if◌then◌else◌}
use staking_api_service.Base.Exec.{pure, fail, try, ◌>>=◌}
use staking_api_service.Types.Errors.{duplicate_key, document_not_found, is_no_documents}
use staking_api_service.Types.States.{DelegationState, active, contains}
use staking_api_service.Model.{Uint64, Int64, DelegationDocument}
use staking_api_service.Driver.{Driver, call}
use staking_api_service.Store.Access.{Client, decode, query, command}

module _ ⦃driver : Driver⦄ where
  open driver use {mongo}

  abbrev pub active_document :
      (hash staker_pk fp_pk tx_hex : String) (amount start_height timelock output_index : Uint64)
      → Int64
      → Bool
      → DelegationDocument
  active_document hash staker_pk fp_pk tx_hex amount start_height timelock output_index start
        overflow =
      record {
        staking_tx_hash_hex = hash;
        staker_pk_hex = staker_pk;
        finality_provider_pk_hex = fp_pk;
        staking_value = amount;
        state = active;
        staking_tx = record {
          tx_hex = tx_hex;
          output_index = output_index;
          start_timestamp = start;
          start_height = start_height;
          time_lock = timelock;
        };
        unbonding_tx = none;
        is_overflow = overflow;
      }

  unfoldable pub insert_delegation : DelegationDocument → Client driver Bool
  insert_delegation d = call (
      command (λ db.
        let (inserted, s) = mongo.delegations.insert_one d.staking_tx_hash_hex d db.delegations in
        (inserted, record db { delegations = s })))

  unfoldable pub save_active_staking_delegation :
      (hash staker_pk fp_pk tx_hex : String) (amount start_height timelock output_index : Uint64)
      → Int64
      → Bool
      → Client driver (Unit {0})
  unfolding insert_delegation
  save_active_staking_delegation hash staker_pk fp_pk tx_hex amount start_height timelock
        output_index start overflow =
      do
        inserted ← insert_delegation (
            active_document hash staker_pk fp_pk tx_hex amount start_height timelock output_index
              start overflow)
        if inserted then pure tt else fail (duplicate_key hash "Delegation already exists")

  -- `FindOne` of a delegation with the key and a condition on its fields, decoded
  unfoldable pub find_one_delegation :
      String → (DelegationDocument → Bool) → Client driver DelegationDocument
  find_one_delegation hash p = do
    found ← call (query (λ db. mongo.delegations.find_one hash p db.delegations))
    decode found

  unfoldable pub find_delegation_by_tx_hash_hex : String → Client driver DelegationDocument
  unfolding find_one_delegation
  find_delegation_by_tx_hash_hex hash =
      try (find_one_delegation hash (λ d. true))
        (λ e.
          fail (if is_no_documents e then document_not_found hash "Delegation not found" else e))
        pure

  -- `UpdateOne` of a delegation; says whether a document matched.
  unfoldable pub update_one_delegation :
      String
      → (DelegationDocument → Bool)
      → (DelegationDocument → DelegationDocument)
      → Client driver Bool
  update_one_delegation hash p f = call (
      command (λ db.
        let (matched, s) = mongo.delegations.update_one hash p f db.delegations in
        (matched, record db { delegations = s })))

  -- The map of additional updates is a function on the document. `UpdateOne` reports a missing
  -- document by its matched count, which the code does not read.
  unfoldable pub transition_state :
      String
      → DelegationState
      → List DelegationState
      → (DelegationDocument → DelegationDocument)
      → Client driver (Unit {0})
  unfolding update_one_delegation
  transition_state hash new_state eligible_previous_state additional_updates =
      try
        (update_one_delegation hash (λ d. contains eligible_previous_state d.state)
          (λ d. record (additional_updates d) { state = new_state }))
        (λ e. fail (
          if is_no_documents e
          then document_not_found hash "Delegation not found or not in eligible state to transition"
          else e))
        (λ matched. pure tt)
