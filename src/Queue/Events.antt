-- ===== src/Queue/Events.antt =====
-- The events of the queue client, how their bodies are read, and
-- internal/shared/queue/handler/handler.go.
use staking_api_service.Base.{ℕ, String, Bool, ◌∷◌}
use staking_api_service.Base.Exec.{Result, ok, Exec, lift, pure, fail, try}
use staking_api_service.Types.Errors.{GoError, bad_request, internal_service_error, new_error}
use staking_api_service.Types.Errors.Status
use staking_api_service.Model.{Uint64, Int64}
use staking_api_service.Driver.{Driver, World, StatsEvent, call}
use staking_api_service.Service.Delegations.{Service}

pub record ActiveStakingEvent : Type 0 where
  pub staking_tx_hash_hex : String
  pub staker_pk_hex : String
  pub finality_provider_pk_hex : String
  pub staking_value : Uint64
  pub staking_start_height : Uint64
  pub staking_start_timestamp : Int64
  pub staking_time_lock : Uint64
  pub staking_output_index : Uint64
  pub staking_tx_hex : String
  pub is_overflow : Bool

pub record UnbondingStakingEvent : Type 0 where
  pub staking_tx_hash_hex : String
  pub unbonding_start_height : Uint64
  pub unbonding_start_timestamp : Int64
  pub unbonding_time_lock : Uint64
  pub unbonding_output_index : Uint64
  pub unbonding_tx_hex : String

pub record ExpiredStakingEvent : Type 0 where
  pub staking_tx_hash_hex : String
  pub tx_type : String

pub record WithdrawStakingEvent : Type 0 where
  pub staking_tx_hash_hex : String

pub record BtcInfoEvent : Type 0 where
  pub height : Uint64
  pub confirmed_tvl : Uint64
  pub unconfirmed_tvl : Uint64

-- `json.Unmarshal` at the types of the events, and the schema version that `NewStatsEvent` writes.
pub record EventFormat : Type 0 where
  pub active_staking : String → Result GoError ActiveStakingEvent
  pub unbonding_staking : String → Result GoError UnbondingStakingEvent
  pub expired_staking : String → Result GoError ExpiredStakingEvent
  pub withdraw_staking : String → Result GoError WithdrawStakingEvent
  pub stats : String → Result GoError StatsEvent
  pub btc_info : String → Result GoError BtcInfoEvent
  pub stats_schema_version : ℕ

module _ ⦃driver : Driver⦄ where
  -- A body that does not parse is answered with 400.
  unfoldable pub unmarshal :
      {A : Type 0} → Result GoError A → (A → Service driver (Unit {0})) → Service driver (Unit {0})
  unmarshal r next = try (lift r) (λ e. fail (new_error Status.bad_request bad_request e)) next

  -- Putting an event on the stats queue
  unfoldable pub send : StatsEvent → Exec (World driver.mongo) GoError (Unit {0})
  send event =
      call (λ w. (ok tt, record w { visible = record w.visible { sent = event ∷ w.sent } }))

  -- The marshalling of the event, which has strings, numbers and a flag, does not fail.
  unfoldable pub emit_stats_event : StatsEvent → Service driver (Unit {0})
  unfolding send
  emit_stats_event event =
      try (send event) (λ e. fail (new_error Status.internal_server_error internal_service_error e))
        pure
