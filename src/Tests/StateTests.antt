-- ===== src/Tests/StateTests.antt =====
-- Types/Lifecycle.antt and Types/V2States/Told.antt at concrete states
use staking_api_service.Base.{◌≡◌, ◌↔◌, refl, ◌⊎◌, some, none}
use staking_api_service.Base.Exec.{ok, err}
use staking_api_service.Types.Errors.{GoError, text}
use staking_api_service.Types.States.{unbonding, to_string, from_string_to_delegation_state}
use staking_api_service.Types.Lifecycle.{from_string_iff}
use staking_api_service.Types.V2States.{
  state_timelock_slashing_withdrawable, state_timelock_withdrawn, map_delegation_state, state_of,
  sub_state_of, Tells,
}
use staking_api_service.Types.V2States.Told.{map_delegation_state-ok, map_delegation_state-err}

from_string_iff_example :
    (from_string_to_delegation_state "unbonding" ≡ ok unbonding)
    ↔ ("unbonding" ≡ to_string unbonding)
from_string_iff_example = from_string_iff "unbonding" unbonding

abbrev refused_combination : GoError
refused_combination = text "invalid state/subState combination"

mapped :
    map_delegation_state "WITHDRAWABLE" "TIMELOCK_SLASHING"
    ≡ ok state_timelock_slashing_withdrawable
unfolding map_delegation_state
mapped = refl

map_delegation_state-ok_example :
    (state_of state_timelock_slashing_withdrawable ≡ "WITHDRAWABLE")
    × ((sub_state_of state_timelock_slashing_withdrawable ≡ some "TIMELOCK_SLASHING")
        ⊎ (sub_state_of state_timelock_slashing_withdrawable ≡ none))
map_delegation_state-ok_example =
    map_delegation_state-ok "WITHDRAWABLE" "TIMELOCK_SLASHING" state_timelock_slashing_withdrawable
      mapped

-- the substate is left out of the document
without_sub_state : map_delegation_state "WITHDRAWN" "" ≡ err refused_combination
unfolding map_delegation_state
without_sub_state = refl

map_delegation_state-err_example : ¬ Tells state_timelock_withdrawn "WITHDRAWN" ""
map_delegation_state-err_example =
    map_delegation_state-err "WITHDRAWN" "" _ without_sub_state state_timelock_withdrawn
