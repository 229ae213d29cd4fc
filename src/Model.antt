-- ===== src/Model.antt =====
-- The documents of internal/v1/db/model and internal/shared/db/model, and the events of the queues.
-- A uint64 or int64 is its bit pattern, a number below 2 ^ 64.
use staking_api_service.Base.{ℕ, ◌+◌, ◌-◌, ◌%◌, ◌^◌, String, Bool, Option}
use staking_api_service.Types.States.{DelegationState}

abbrev pub Uint64 : Type 0
Uint64 = ℕ

abbrev pub Int64 : Type 0
Int64 = ℕ

abbrev pub word : ℕ
word = 2 ^ 64

-- Go's `a + b`, `-a` and `a - b` on 64-bit integers, which wrap
abbrev pub add64 : ℕ → ℕ → ℕ
add64 a b = (a + b) % word

abbrev pub neg64 : ℕ → ℕ
neg64 a = (word - a) % word

abbrev pub sub64 : ℕ → ℕ → ℕ
sub64 a b = (a + word - b) % word

pub record TimelockTransaction : Type 0 where
  pub tx_hex : String
  pub output_index : Uint64
  pub start_timestamp : Int64
  pub start_height : Uint64
  pub time_lock : Uint64

pub record DelegationDocument : Type 0 where
  pub staking_tx_hash_hex : String
  pub staker_pk_hex : String
  pub finality_provider_pk_hex : String
  pub staking_value : Uint64
  pub state : DelegationState
  pub staking_tx : TimelockTransaction
  pub unbonding_tx : Option TimelockTransaction
  pub is_overflow : Bool

pub record UnbondingDocument : Type 0 where
  pub staker_pk_hex : String
  pub finality_pk_hex : String
  pub unbonding_tx_sig_hex : String
  pub state : String
  pub unbonding_tx_hash_hex : String
  pub unbonding_tx_hex : String
  pub staking_tx_hex : String
  pub staking_output_index : Uint64
  pub staking_timelock : Uint64
  pub staking_amount : Uint64
  pub staking_tx_hash_hex : String

abbrev pub unbonding_initial_state : String
unbonding_initial_state = "INSERTED"

pub record TimeLockDocument : Type 0 where
  pub staking_tx_hash_hex : String
  pub expire_height : Uint64
  pub tx_type : String

pub record BtcInfo : Type 0 where
  pub id : String
  pub btc_height : Uint64
  pub confirmed_tvl : Uint64
  pub unconfirmed_tvl : Uint64

abbrev pub latest_btc_info_id : String
latest_btc_info_id = "latest"

pub record StatsLockDocument : Type 0 where
  pub id : String
  pub overall_stats : Bool
  pub staker_stats : Bool
  pub finality_provider_stats : Bool

pub record OverallStatsDocument : Type 0 where
  pub id : String
  pub active_tvl : Int64
  pub total_tvl : Int64
  pub active_delegations : Int64
  pub total_delegations : Int64
  pub total_stakers : Uint64

-- `StakerStatsDocument` and `FinalityProviderStatsDocument`, which have the same fields;
-- `id` is the public key.
pub record StatsDocument : Type 0 where
  pub id : String
  pub active_tvl : Int64
  pub total_tvl : Int64
  pub active_delegations : Int64
  pub total_delegations : Int64

-- `V2StatsLockDocument` as it is stored: the fields of the struct, and those that the queries name and
-- the struct does not have.
pub record V2StatsLockDocument : Type 0 where
  pub id : String
  pub overall_stats : Bool
  pub staker_stats : Bool
  pub finality_provider_stats : Bool
  pub v2_overall_stats : Option Bool
  pub v2_staker_stats : Option Bool
  pub v2_finality_provider_stats : Option Bool

pub record V2OverallStatsDocument : Type 0 where
  pub id : String
  pub active_tvl : Int64
  pub total_tvl : Int64
  pub active_delegations : Int64
  pub total_delegations : Int64
  pub active_stakers : Uint64
  pub total_stakers : Uint64
  pub active_finality_providers : Uint64
  pub total_finality_providers : Uint64

-- `V2StakerStatsDocument` as it is read
pub record V2StakerStatsDocument : Type 0 where
  pub staker_pk_hex : String
  pub active_tvl : Int64
  pub withdrawable_tvl : Int64
  pub slashed_tvl : Int64
  pub active_delegations : ℕ
  pub withdrawable_delegations : ℕ
  pub slashed_delegations : ℕ

pub record PkAddressMapping : Type 0 where
  pub pk_hex : String
  pub taproot : String
  pub native_segwit_even : String
  pub native_segwit_odd : String

pub record UnprocessableMessageDocument : Type 0 where
  pub message_body : String
  pub receipt : String
