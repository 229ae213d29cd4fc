-- ===== src/Tasks/DelegationCalls.antt =====
-- From the single calls on delegations to the operations of the store, for a relation that every
-- such call keeps.
use staking_api_service.Base.{String, Bool}
use staking_api_service.Types.States.{StakingTxType, qualified_states_to_unbonded}
use staking_api_service.Model.{Uint64, Int64, DelegationDocument, UnbondingDocument}
use staking_api_service.Driver.{Driver, Visible}
use staking_api_service.Driver.Keeps.{Preorder, Keeps, keeps_rules}
use staking_api_service.Store.Delegations.{
  insert_delegation, save_active_staking_delegation, find_one_delegation,
  find_delegation_by_tx_hash_hex, update_one_delegation, transition_state,
}
use staking_api_service.Store.Unbonding.{
  insert_unbonding, save_unbonding_tx_work, save_unbonding_tx, transition_to_unbonding_state,
  transition_to_withdrawn_state,
}
use staking_api_service.Store.Timelock.{transition_to_unbonded_state}
use staking_api_service.Tasks.Calls.{start_session-Keeps}

pub record DelegationCalls ⦃driver : Driver⦄ (P : Preorder (Visible driver.mongo)) : Type 0 where
  pub insert : (d : DelegationDocument) → Keeps P (insert_delegation d)
  pub find : (hash : String) (p : DelegationDocument → Bool) → Keeps P (find_one_delegation hash p)
  pub update :
      (hash : String) (p : DelegationDocument → Bool) (f : DelegationDocument → DelegationDocument)
      → Keeps P (update_one_delegation hash p f)
  pub insert_unbonding_tx : (u : UnbondingDocument) → Keeps P (insert_unbonding u)

module _ ⦃driver : Driver⦄ {P : Preorder (Visible driver.mongo)} (calls : DelegationCalls P) where
  pub find_delegation-Keeps : (hash : String) → Keeps P (find_delegation_by_tx_hash_hex hash)
  unfolding find_delegation_by_tx_hash_hex
  find_delegation-Keeps hash = search (keeps_rules, calls.find)

  pub save_active-Keeps :
      (hash staker_pk fp_pk tx_hex : String) (amount start_height timelock output_index : Uint64)
      (start : Int64) (overflow : Bool)
      → Keeps P (
          save_active_staking_delegation hash staker_pk fp_pk tx_hex amount start_height timelock
            output_index start overflow)
  unfolding save_active_staking_delegation
  save_active-Keeps hash staker_pk fp_pk tx_hex amount start_height timelock output_index start
        overflow =
      search (keeps_rules, calls.insert)

  pub to_unbonding-Keeps :
      (tx_hash : String) (start_height timelock output_index : Uint64) (tx_hex : String)
      (start : Int64)
      → Keeps P
          (transition_to_unbonding_state tx_hash start_height timelock output_index tx_hex start)
  unfolding transition_to_unbonding_state transition_state
  to_unbonding-Keeps tx_hash start_height timelock output_index tx_hex start =
      search (keeps_rules, calls.update)

  pub to_unbonded-Keeps :
      (hash : String) (t : StakingTxType)
      → Keeps P (transition_to_unbonded_state hash (qualified_states_to_unbonded t))
  unfolding transition_to_unbonded_state transition_state
  to_unbonded-Keeps hash t = search (keeps_rules, calls.update)

  pub to_withdrawn-Keeps : (hash : String) → Keeps P (transition_to_withdrawn_state hash)
  unfolding transition_to_withdrawn_state transition_state
  to_withdrawn-Keeps hash = search (keeps_rules, calls.update)

  unbonding_work-Keeps :
      (hash tx_hash tx_hex signature : String)
      → Keeps P (save_unbonding_tx_work hash tx_hash tx_hex signature)
  unfolding save_unbonding_tx_work
  unbonding_work-Keeps hash tx_hash tx_hex signature =
      search (keeps_rules, calls.find, calls.update, calls.insert_unbonding_tx) depth 9

  pub save_unbonding-Keeps :
      (hash tx_hash tx_hex signature : String)
      → Keeps P (save_unbonding_tx hash tx_hash tx_hex signature)
  unfolding save_unbonding_tx
  save_unbonding-Keeps hash tx_hash tx_hex signature =
      search (keeps_rules, start_session-Keeps, unbonding_work-Keeps)
