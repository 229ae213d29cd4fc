-- ===== src/Store/Unbonding.antt =====
-- internal/v1/db/client/unbonding.go and withdraw.go
pub mod Atomic
use staking_api_service.Base.{String, Bool, some, if◌then◌else◌}
use staking_api_service.Base.Exec.{pure, fail, try, ◌>>=◌, ◌>>◌}
use staking_api_service.Types.Errors.{duplicate_key, document_not_found, is_no_documents}
use staking_api_service.Types.States.{
  active, unbonding_requested, unbonding, withdrawn, state_eq, qualified_states_to_unbonding,
  qualified_states_to_withdraw,
}
use staking_api_service.Model.{
  Uint64, Int64, DelegationDocument, UnbondingDocument, unbonding_initial_state,
}
use staking_api_service.Driver.{Driver, Work, call}
use staking_api_service.Store.Access.{Client, command, start_session}
use staking_api_service.Store.Delegations.{
  find_one_delegation, update_one_delegation, transition_state,
}

-- the document that `SaveUnbondingTx` inserts
unfoldable pub unbonding_document :
    (hash tx_hash tx_hex signature : String) → DelegationDocument → UnbondingDocument
unbonding_document hash tx_hash tx_hex signature d = record {
  staker_pk_hex = d.staker_pk_hex;
  finality_pk_hex = d.finality_provider_pk_hex;
  unbonding_tx_sig_hex = signature;
  state = unbonding_initial_state;
  unbonding_tx_hash_hex = tx_hash;
  unbonding_tx_hex = tx_hex;
  staking_tx_hex = d.staking_tx.tx_hex;
  staking_output_index = d.staking_tx.output_index;
  staking_timelock = d.staking_tx.time_lock;
  staking_amount = d.staking_value;
  staking_tx_hash_hex = hash;
}

-- the map of additional updates of `TransitionToUnbondingState`
abbrev pub unbonding_update :
    (start_height timelock output_index : Uint64) (tx_hex : String)
    → Int64
    → DelegationDocument
    → DelegationDocument
unbonding_update start_height timelock output_index tx_hex start_timestamp d = record d {
  unbonding_tx = some (record {
    tx_hex = tx_hex;
    output_index = output_index;
    start_timestamp = start_timestamp;
    start_height = start_height;
    time_lock = timelock;
  });
}

abbrev pub is_active : DelegationDocument → Bool
is_active d = state_eq d.state active

module _ ⦃driver : Driver⦄ where
  open driver use {mongo}

  unfoldable pub insert_unbonding : UnbondingDocument → Client driver Bool
  insert_unbonding u = call (
      command (λ db.
        let (inserted, s) = mongo.unbonding.insert_one u.unbonding_tx_hash_hex u db.unbonding in
        (inserted, record db { unbonding = s })))

  -- the callback of the transaction
  unfoldable pub save_unbonding_tx_work :
      (hash tx_hash tx_hex signature : String) → Work driver.mongo
  unfolding find_one_delegation update_one_delegation insert_unbonding unbonding_document
  save_unbonding_tx_work hash tx_hash tx_hex signature =
      try (find_one_delegation hash is_active)
        (λ e. fail (
          if is_no_documents e
          then document_not_found hash "no active delegation found for unbonding request"
          else e))
        (λ delegation. do
          matched ←
              update_one_delegation hash is_active (λ d. record d { state = unbonding_requested })
          if matched
              then (do
                inserted ←
                    insert_unbonding (unbonding_document hash tx_hash tx_hex signature delegation)
                if inserted
                    then pure tt
                    else fail (duplicate_key tx_hash "unbonding transaction already exists"))
              else fail
                  (document_not_found hash "delegation not found or not eligible for unbonding"))

  unfoldable pub save_unbonding_tx :
      (hash tx_hash tx_hex signature : String) → Client driver (Unit {0})
  unfolding start_session save_unbonding_tx_work
  save_unbonding_tx hash tx_hash tx_hex signature =
      start_session driver
      >> driver.with_transaction (save_unbonding_tx_work hash tx_hash tx_hex signature)

  unfoldable pub transition_to_unbonding_state :
      (tx_hash : String) (start_height timelock output_index : Uint64) (tx_hex : String)
      → Int64
      → Client driver (Unit {0})
  unfolding transition_state
  transition_to_unbonding_state tx_hash start_height timelock output_index tx_hex start_timestamp =
      transition_state tx_hash unbonding qualified_states_to_unbonding
        (unbonding_update start_height timelock output_index tx_hex start_timestamp)

  unfoldable pub transition_to_withdrawn_state : String → Client driver (Unit {0})
  unfolding transition_state
  transition_to_withdrawn_state tx_hash =
      transition_state tx_hash withdrawn qualified_states_to_withdraw (λ d. d)
