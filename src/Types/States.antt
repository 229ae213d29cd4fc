-- ===== src/Types/States.antt =====
-- internal/shared/types/delegation.go, internal/shared/types/transaction_type.go,
-- internal/shared/utils/state_transition.go and `Contains` of internal/shared/utils/utils.go.
-- The two types are strings in Go; their values are the constants that the program assigns.
use staking_api_service.Base.{String, Bool, true, false, ◌||◌, List, [], ◌∷◌, ◌==◌, if◌then◌else◌}
use staking_api_service.Base.Exec.{Result, ok, err}
use staking_api_service.Types.Errors.{GoError, text}
use Prim.Native.String.{◌++◌ as str_append}

pub data DelegationState : Type 0 where
  active unbonding_requested unbonding unbonded withdrawn : DelegationState

unfoldable pub to_string : DelegationState → String
to_string active = "active"
to_string unbonding_requested = "unbonding_requested"
to_string unbonding = "unbonding"
to_string unbonded = "unbonded"
to_string withdrawn = "withdrawn"

unfoldable pub from_string_to_delegation_state : String → Result GoError DelegationState
from_string_to_delegation_state s =
    if s == "active"
    then ok active
    else if s == "unbonding_requested"
    then ok unbonding_requested
    else if s == "unbonding"
    then ok unbonding
    else if s == "unbonded"
    then ok unbonded
    else if s == "withdrawn"
    then ok withdrawn
    else err (text (str_append "invalid delegation state: " s))

-- `==` on the constants, which are different strings
abbrev pub state_eq : DelegationState → DelegationState → Bool
state_eq active active = true
state_eq unbonding_requested unbonding_requested = true
state_eq unbonding unbonding = true
state_eq unbonded unbonded = true
state_eq withdrawn withdrawn = true
state_eq _ _ = false

pub data StakingTxType : Type 0 where
  active_tx_type unbonding_tx_type : StakingTxType

unfoldable pub tx_type_to_string : StakingTxType → String
tx_type_to_string active_tx_type = "active"
tx_type_to_string unbonding_tx_type = "unbonding"

unfoldable pub staking_tx_type_from_string : String → Result GoError StakingTxType
unfolding tx_type_to_string
staking_tx_type_from_string s =
    if s == tx_type_to_string active_tx_type
    then ok active_tx_type
    else if s == tx_type_to_string unbonding_tx_type
    then ok unbonding_tx_type
    else err (text (str_append "unknown staking tx type: " s))

-- the loop of `Contains`, at the type of states
unfoldable pub contains : List DelegationState → DelegationState → Bool
contains [] element = false
contains (item ∷ slice) element = state_eq item element || contains slice element

unfoldable pub qualified_states_to_unbonding_request : List DelegationState
qualified_states_to_unbonding_request = active ∷ []

unfoldable pub qualified_states_to_unbonding : List DelegationState
qualified_states_to_unbonding = active ∷ unbonding_requested ∷ []

unfoldable pub outdated_states_for_unbonding : List DelegationState
outdated_states_for_unbonding = unbonding ∷ unbonded ∷ withdrawn ∷ []

unfoldable pub qualified_states_to_unbonded : StakingTxType → List DelegationState
qualified_states_to_unbonded active_tx_type = active ∷ []
qualified_states_to_unbonded unbonding_tx_type = unbonding ∷ []

unfoldable pub outdated_states_for_unbonded : List DelegationState
outdated_states_for_unbonded = unbonded ∷ withdrawn ∷ []

unfoldable pub qualified_states_to_withdraw : List DelegationState
qualified_states_to_withdraw = unbonded ∷ []

unfoldable pub outdated_states_for_withdraw : List DelegationState
outdated_states_for_withdraw = withdrawn ∷ []
