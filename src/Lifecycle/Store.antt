-- ===== src/Lifecycle/Store.antt =====
-- Each operation of the store lets delegations evolve.
use staking_api_service.Base.{String, Bool, true, ◌≡◌, refl, Option, none, some, List, arith}
use staking_api_service.Types.States.{
  DelegationState, active, unbonding, unbonding_requested, unbonded, withdrawn, contains,
  StakingTxType, qualified_states_to_unbonded, state_eq,
}
use staking_api_service.Types.Lifecycle.{
  ◌⟶◌, request, unbonding_moves, unbonded_moves, withdraw_moves,
}
use staking_api_service.Model.{Uint64, Int64, DelegationDocument, UnbondingDocument}
use staking_api_service.Driver.{Mongo, Db, Driver, or_else, change_if}
use staking_api_service.Driver.Keeps.{Keeps, Keeps-call, keeps_rules}
use staking_api_service.Store.Access.{decode, query, start_session}
use staking_api_service.Store.Delegations.{
  insert_delegation, save_active_staking_delegation, find_one_delegation,
  find_delegation_by_tx_hash_hex, update_one_delegation, transition_state,
}
use staking_api_service.Store.Unbonding.{
  is_active, insert_unbonding, save_unbonding_tx_work, save_unbonding_tx, unbonding_update,
  transition_to_unbonding_state, transition_to_withdrawn_state,
}
use staking_api_service.Store.Timelock.{transition_to_unbonded_state}
use staking_api_service.Lifecycle.Order.{
  Evolves-refl, Evolves-insert, Evolves-change_if, Evolves-at, Same-moved, IsMove, lifecycle,
}

module _ {m : Mongo} {A : Type 0} where
  pub lifecycle-query : (f : Db m → A) → Keeps (lifecycle m) (query f)
  lifecycle-query f = record { at = λ w k. Evolves-refl _ }

  pub lifecycle-decode : (o : Option A) → Keeps (lifecycle m) (decode o)
  lifecycle-decode none = search keeps_rules
  lifecycle-decode (some a) = search keeps_rules

module _ ⦃driver : Driver⦄ where
  open driver use {mongo}

  insert_delegation-lifecycle :
      (d : DelegationDocument) → d.state ≡ active → Keeps (lifecycle mongo) (insert_delegation d)
  unfolding insert_delegation
  insert_delegation-lifecycle d h = Keeps-call _ (record {
    at = λ w j. rw mongo.delegations.view-insert_one (
        Evolves-at (mongo.delegations.view w.db.delegations) (λ o. some (or_else o d))
          (λ o. Evolves-insert o d h) d.staking_tx_hash_hex j);
  })

  pub update_one_delegation-lifecycle :
      (hash : String) {p : DelegationDocument → Bool} {f : DelegationDocument → DelegationDocument}
      → IsMove p f
      → Keeps (lifecycle mongo) (update_one_delegation hash p f)
  unfolding update_one_delegation
  update_one_delegation-lifecycle hash {p} {f} move = Keeps-call _ (record {
    at = λ w j. rw mongo.delegations.view-update_one (
        Evolves-at (mongo.delegations.view w.db.delegations) (change_if p f)
          (Evolves-change_if move) hash j);
  })

  pub find_one_delegation-lifecycle :
      (hash : String) (p : DelegationDocument → Bool)
      → Keeps (lifecycle mongo) (find_one_delegation hash p)
  unfolding find_one_delegation
  find_one_delegation-lifecycle hash p = search (keeps_rules, lifecycle-query, lifecycle-decode)

  pub find_delegation-lifecycle :
      (hash : String) → Keeps (lifecycle mongo) (find_delegation_by_tx_hash_hex hash)
  unfolding find_delegation_by_tx_hash_hex
  find_delegation-lifecycle hash = search (keeps_rules, find_one_delegation-lifecycle)

  pub save_active-lifecycle :
      (hash staker_pk fp_pk tx_hex : String) (amount start_height timelock output_index : Uint64)
      (start : Int64) (overflow : Bool)
      → Keeps (lifecycle mongo) (
          save_active_staking_delegation hash staker_pk fp_pk tx_hex amount start_height timelock
            output_index start overflow)
  unfolding save_active_staking_delegation
  save_active-lifecycle hash staker_pk fp_pk tx_hex amount start_height timelock output_index start
        overflow =
      search (keeps_rules, insert_delegation-lifecycle _ refl)

  -- a transition whose eligible states all have an arrow to the new state
  transition_state-lifecycle :
      (hash : String) (new_state : DelegationState) (eligible : List DelegationState)
      (f : DelegationDocument → DelegationDocument)
      → IsMove (λ d. contains eligible d.state) (λ d. record (f d) { state = new_state })
      → Keeps (lifecycle mongo) (transition_state hash new_state eligible f)
  unfolding transition_state
  transition_state-lifecycle hash new_state eligible f move =
      search (keeps_rules, update_one_delegation-lifecycle hash move)

  pub transition_to_unbonding-lifecycle :
      (tx_hash : String) (start_height timelock output_index : Uint64) (tx_hex : String)
      (start : Int64)
      → Keeps
          (lifecycle mongo)
          (transition_to_unbonding_state tx_hash start_height timelock output_index tx_hex start)
  unfolding transition_to_unbonding_state
  transition_to_unbonding-lifecycle tx_hash start_height timelock output_index tx_hex start =
      transition_state-lifecycle tx_hash unbonding _
        (unbonding_update start_height timelock output_index tx_hex start)
        (record { same = λ d. Same-moved d _ _; arrow = λ d h. unbonding_moves d.state h })

  pub transition_to_unbonded-lifecycle :
      (hash : String) (t : StakingTxType)
      → Keeps (lifecycle mongo) (transition_to_unbonded_state hash (qualified_states_to_unbonded t))
  unfolding transition_to_unbonded_state
  transition_to_unbonded-lifecycle hash t =
      transition_state-lifecycle hash unbonded _ (λ d. d)
        (record { same = λ d. Same-moved d _ _; arrow = λ d h. unbonded_moves t d.state h })

  pub transition_to_withdrawn-lifecycle :
      (hash : String) → Keeps (lifecycle mongo) (transition_to_withdrawn_state hash)
  unfolding transition_to_withdrawn_state
  transition_to_withdrawn-lifecycle hash =
      transition_state-lifecycle hash withdrawn _ (λ d. d)
        (record { same = λ d. Same-moved d _ _; arrow = λ d h. withdraw_moves d.state h })

  pub start_session-lifecycle : Keeps (lifecycle mongo) (start_session driver)
  unfolding start_session
  start_session-lifecycle = search keeps_rules

  request-IsMove : IsMove is_active (λ d. record d { state = unbonding_requested })
  request-IsMove = record {
    same = λ d. Same-moved d _ _;
    arrow = λ d h. is_active-request d.state h;
  }
    where
      is_active-request : (s : DelegationState) → state_eq s active ≡ true → s ⟶ unbonding_requested
      is_active-request active h = request
      is_active-request _ h = absurd (ground arith)

  insert_unbonding-lifecycle :
      (u : UnbondingDocument) → Keeps (lifecycle mongo) (insert_unbonding u)
  unfolding insert_unbonding
  insert_unbonding-lifecycle u = Keeps-call _ (record { at = λ w k. Evolves-refl _ })

  save_unbonding_tx_work-lifecycle :
      (hash tx_hash tx_hex signature : String)
      → Keeps (lifecycle mongo) (save_unbonding_tx_work hash tx_hash tx_hex signature)
  unfolding save_unbonding_tx_work
  save_unbonding_tx_work-lifecycle hash tx_hash tx_hex signature =
      search
        (
          keeps_rules,
          find_one_delegation-lifecycle,
          update_one_delegation-lifecycle _ request-IsMove,
          insert_unbonding-lifecycle,
        )
        depth 9

  pub save_unbonding_tx-lifecycle :
      (hash tx_hash tx_hex signature : String)
      → Keeps (lifecycle mongo) (save_unbonding_tx hash tx_hash tx_hex signature)
  unfolding save_unbonding_tx
  save_unbonding_tx-lifecycle hash tx_hash tx_hex signature =
      search (keeps_rules, start_session-lifecycle, save_unbonding_tx_work-lifecycle)
