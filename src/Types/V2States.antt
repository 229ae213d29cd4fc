-- ===== src/Types/V2States.antt =====
-- internal/v2/types/delegation_states.go, with the states of internal/indexer/types/delegation_state.go.
-- The two arguments are any texts, as in Go; a flattened state is one of the constants of the file, and
-- the empty text that comes with an error is left out.
pub mod Told
use staking_api_service.Base.{String, ◌==◌, ◌≡◌, ◌⊎◌, Option, some, none, if◌then◌else◌}
use staking_api_service.Base.Exec.{Result, ok, err}
use staking_api_service.Types.Errors.{GoError, text}

abbrev pub IndexerState : Type 0
IndexerState = String

abbrev pub IndexerSubState : Type 0
IndexerSubState = String

abbrev pub indexer_state_pending : IndexerState
indexer_state_pending = "PENDING"

abbrev pub indexer_state_verified : IndexerState
indexer_state_verified = "VERIFIED"

abbrev pub indexer_state_active : IndexerState
indexer_state_active = "ACTIVE"

abbrev pub indexer_state_unbonding : IndexerState
indexer_state_unbonding = "UNBONDING"

abbrev pub indexer_state_withdrawable : IndexerState
indexer_state_withdrawable = "WITHDRAWABLE"

abbrev pub indexer_state_withdrawn : IndexerState
indexer_state_withdrawn = "WITHDRAWN"

abbrev pub indexer_state_slashed : IndexerState
indexer_state_slashed = "SLASHED"

abbrev pub sub_state_timelock : IndexerSubState
sub_state_timelock = "TIMELOCK"

abbrev pub sub_state_early_unbonding : IndexerSubState
sub_state_early_unbonding = "EARLY_UNBONDING"

abbrev pub sub_state_timelock_slashing : IndexerSubState
sub_state_timelock_slashing = "TIMELOCK_SLASHING"

abbrev pub sub_state_early_unbonding_slashing : IndexerSubState
sub_state_early_unbonding_slashing = "EARLY_UNBONDING_SLASHING"

pub data V2State : Type 0 where
  state_pending state_verified state_active : V2State
  state_timelock_unbonding state_early_unbonding : V2State
  state_timelock_withdrawable state_early_unbonding_withdrawable : V2State
  state_timelock_slashing_withdrawable state_early_unbonding_slashing_withdrawable : V2State
  state_timelock_withdrawn state_early_unbonding_withdrawn : V2State
  state_timelock_slashing_withdrawn state_early_unbonding_slashing_withdrawn : V2State
  state_timelock_slashed state_early_unbonding_slashed : V2State

-- The text of the error is fixed here; in Go it cites the two states.
abbrev pub invalid_combination : Result GoError V2State
invalid_combination = err (text "invalid state/subState combination")

abbrev pub flattened_unbonding : IndexerSubState → Result GoError V2State
flattened_unbonding t =
    if t == sub_state_timelock
    then ok state_timelock_unbonding
    else if t == sub_state_early_unbonding
    then ok state_early_unbonding
    else invalid_combination

abbrev pub flattened_withdrawable : IndexerSubState → Result GoError V2State
flattened_withdrawable t =
    if t == sub_state_timelock
    then ok state_timelock_withdrawable
    else if t == sub_state_early_unbonding
    then ok state_early_unbonding_withdrawable
    else if t == sub_state_timelock_slashing
    then ok state_timelock_slashing_withdrawable
    else if t == sub_state_early_unbonding_slashing
    then ok state_early_unbonding_slashing_withdrawable
    else invalid_combination

abbrev pub flattened_withdrawn : IndexerSubState → Result GoError V2State
flattened_withdrawn t =
    if t == sub_state_timelock
    then ok state_timelock_withdrawn
    else if t == sub_state_early_unbonding
    then ok state_early_unbonding_withdrawn
    else if t == sub_state_timelock_slashing
    then ok state_timelock_slashing_withdrawn
    else if t == sub_state_early_unbonding_slashing
    then ok state_early_unbonding_slashing_withdrawn
    else invalid_combination

abbrev pub flattened_slashed : IndexerSubState → Result GoError V2State
flattened_slashed t =
    if t == sub_state_timelock
    then ok state_timelock_slashed
    else if t == sub_state_early_unbonding
    then ok state_early_unbonding_slashed
    else invalid_combination

unfoldable pub map_delegation_state : IndexerState → IndexerSubState → Result GoError V2State
map_delegation_state s t =
    if s == indexer_state_pending
    then ok state_pending
    else if s == indexer_state_verified
    then ok state_verified
    else if s == indexer_state_active
    then ok state_active
    else if s == indexer_state_unbonding
    then flattened_unbonding t
    else if s == indexer_state_withdrawable
    then flattened_withdrawable t
    else if s == indexer_state_withdrawn
    then flattened_withdrawn t
    else if s == indexer_state_slashed
    then flattened_slashed t
    else invalid_combination

-- the state and, where it matters, the substate that a flattened state tells of
abbrev pub state_of : V2State → IndexerState
state_of state_pending = indexer_state_pending
state_of state_verified = indexer_state_verified
state_of state_active = indexer_state_active
state_of state_timelock_unbonding = indexer_state_unbonding
state_of state_early_unbonding = indexer_state_unbonding
state_of state_timelock_withdrawable = indexer_state_withdrawable
state_of state_early_unbonding_withdrawable = indexer_state_withdrawable
state_of state_timelock_slashing_withdrawable = indexer_state_withdrawable
state_of state_early_unbonding_slashing_withdrawable = indexer_state_withdrawable
state_of state_timelock_withdrawn = indexer_state_withdrawn
state_of state_early_unbonding_withdrawn = indexer_state_withdrawn
state_of state_timelock_slashing_withdrawn = indexer_state_withdrawn
state_of state_early_unbonding_slashing_withdrawn = indexer_state_withdrawn
state_of state_timelock_slashed = indexer_state_slashed
state_of state_early_unbonding_slashed = indexer_state_slashed

abbrev pub sub_state_of : V2State → Option IndexerSubState
sub_state_of state_pending = none
sub_state_of state_verified = none
sub_state_of state_active = none
sub_state_of state_timelock_unbonding = some sub_state_timelock
sub_state_of state_early_unbonding = some sub_state_early_unbonding
sub_state_of state_timelock_withdrawable = some sub_state_timelock
sub_state_of state_early_unbonding_withdrawable = some sub_state_early_unbonding
sub_state_of state_timelock_slashing_withdrawable = some sub_state_timelock_slashing
sub_state_of state_early_unbonding_slashing_withdrawable = some sub_state_early_unbonding_slashing
sub_state_of state_timelock_withdrawn = some sub_state_timelock
sub_state_of state_early_unbonding_withdrawn = some sub_state_early_unbonding
sub_state_of state_timelock_slashing_withdrawn = some sub_state_timelock_slashing
sub_state_of state_early_unbonding_slashing_withdrawn = some sub_state_early_unbonding_slashing
sub_state_of state_timelock_slashed = some sub_state_timelock
sub_state_of state_early_unbonding_slashed = some sub_state_early_unbonding

-- a flattened state tells of these two states
abbrev pub Tells : V2State → IndexerState → IndexerSubState → Type 0
Tells v s t = (state_of v ≡ s) × ((sub_state_of v ≡ some t) ⊎ (sub_state_of v ≡ none))
