-- ===== src/Types/Lifecycle.antt =====
-- The life of a delegation as a relation, against which the code's lists of states are held.
use staking_api_service.Base.{
  ℕ, ◌<◌, ◌≡◌, ◌↔◌, refl, subst, String, true, arith, ◌==◌, eq_iff, if◌then◌else◌, Bool-cases, inl,
  inr,
}
use staking_api_service.Base.Exec.{Result, ok}
use staking_api_service.Types.Errors.{GoError}
use staking_api_service.Types.States.{
  DelegationState, active, unbonding_requested, unbonding, unbonded, withdrawn, contains,
  StakingTxType, active_tx_type, unbonding_tx_type, to_string, from_string_to_delegation_state,
  qualified_states_to_unbonding_request, qualified_states_to_unbonding,
  qualified_states_to_unbonded, qualified_states_to_withdraw,
}

infix 40 ◌⟶◌
-- The moves that the service may make.
pub data ◌⟶◌ : DelegationState → DelegationState → Type 0 where
  request : active ⟶ unbonding_requested
  unbond : active ⟶ unbonding
  confirm : unbonding_requested ⟶ unbonding
  expire : active ⟶ unbonded
  expire_unbonding : unbonding ⟶ unbonded
  withdraw : unbonded ⟶ withdrawn

abbrev pub rank : DelegationState → ℕ
rank active = 0
rank unbonding_requested = 1
rank unbonding = 2
rank unbonded = 3
rank withdrawn = 4

-- Every move goes up, so no delegation comes back to a state that it has left.
pub rank-⟶ : {s t : DelegationState} → s ⟶ t → rank s < rank t
rank-⟶ request = omega arith
rank-⟶ unbond = omega arith
rank-⟶ confirm = omega arith
rank-⟶ expire = omega arith
rank-⟶ expire_unbonding = omega arith
rank-⟶ withdraw = omega arith

pub ruleset moves = (request, unbond, confirm, expire, expire_unbonding, withdraw)

pub unbonding_request_moves :
    (s : DelegationState)
    → contains qualified_states_to_unbonding_request s ≡ true
    → s ⟶ unbonding_requested
unfolding contains qualified_states_to_unbonding_request
unbonding_request_moves active h = request
unbonding_request_moves _ h = absurd (ground arith)

pub unbonding_moves :
    (s : DelegationState) → contains qualified_states_to_unbonding s ≡ true → s ⟶ unbonding
unfolding contains qualified_states_to_unbonding
unbonding_moves active h = unbond
unbonding_moves unbonding_requested h = confirm
unbonding_moves _ h = absurd (ground arith)

pub unbonded_moves :
    (t : StakingTxType) (s : DelegationState)
    → contains (qualified_states_to_unbonded t) s ≡ true
    → s ⟶ unbonded
unfolding contains qualified_states_to_unbonded
unbonded_moves active_tx_type active h = expire
unbonded_moves unbonding_tx_type unbonding h = expire_unbonding
unbonded_moves _ _ h = absurd (ground arith)

pub withdraw_moves :
    (s : DelegationState) → contains qualified_states_to_withdraw s ≡ true → s ⟶ withdrawn
unfolding contains qualified_states_to_withdraw
withdraw_moves unbonded h = withdraw
withdraw_moves _ h = absurd (ground arith)

-- `to_string` writes what `from_string_to_delegation_state` reads.
pub from_string-to_string :
    (s : DelegationState) → from_string_to_delegation_state (to_string s) ≡ ok s
unfolding from_string_to_delegation_state to_string
from_string-to_string active = refl
from_string-to_string _ = refl

-- one step of the switch
switch-reads :
    (text : String) (x s : DelegationState) (rest : Result GoError DelegationState)
    → (rest ≡ ok s → text ≡ to_string s)
    → (if text == to_string x then ok x else rest) ≡ ok s
    → text ≡ to_string s
switch-reads text x s rest otherwise h = elim (Bool-cases (text == to_string x)) [
  | inl same ↦
      let e : ok x ≡ ok s = subst (λ b. (if b then ok x else rest) ≡ ok s) same h in
      subst (λ y. text ≡ to_string y) (ground (arith, e)) ((eq_iff text (to_string x)).0 same)
  | inr other ↦ otherwise (subst (λ b. (if b then ok x else rest) ≡ ok s) other h)
]

from_string-reads :
    (text : String) (s : DelegationState)
    → from_string_to_delegation_state text ≡ ok s
    → text ≡ to_string s
unfolding from_string_to_delegation_state to_string
from_string-reads text s = switch-reads text active s _ (
    switch-reads text unbonding_requested s _ (
      switch-reads text unbonding s _ (
        switch-reads text unbonded s _ (switch-reads text withdrawn s _ (λ h. ground (arith, h))))))

-- A text is read as a state exactly if it is the text that is written for it.
pub from_string_iff :
    (text : String) (s : DelegationState)
    → (from_string_to_delegation_state text ≡ ok s) ↔ (text ≡ to_string s)
from_string_iff text s = (from_string-reads text s, λ h. rw h (from_string-to_string s))
