-- ===== src/Tasks.antt =====
-- What the service is asked to do, one after another: the messages of the v1 queues, and the unbonding
-- requests of the API. Each runs to its end or to its first error, over any network.
pub mod Keeps
pub mod Calls
pub mod DelegationCalls
use staking_api_service.Base.{String, List, [], ◌∷◌}
use staking_api_service.Base.Exec.{Result}
use staking_api_service.Types.Errors.{Error}
use staking_api_service.Driver.{Driver, World, Fate}
use staking_api_service.Utils.Bitcoin.{Btc}
use staking_api_service.Service.Params.{Config}
use staking_api_service.Service.Delegations.{Service}
use staking_api_service.Service.Unbonding.{unbond_delegation}
use staking_api_service.Queue.Events.{EventFormat}
use staking_api_service.Queue.Handlers.{
  active_staking_handler, unbonding_staking_handler, expired_staking_handler,
  withdraw_staking_handler, btc_info_handler,
}
use staking_api_service.Queue.StatsHandler.{stats_handler}
use staking_api_service.Queue.Messages.{save_unprocessable_messages}

pub data Task : Type 0 where
  active_staking unbonding_staking expired_staking withdraw_staking : String → Task
  stats btc_info : String → Task
  unprocessable : String → String → Task
  unbond : (hash tx_hash tx_hex signature : String) → Task

module _ ⦃driver : Driver⦄ ⦃btc : Btc⦄ (format : EventFormat) (cfg : Config) where
  unfoldable pub perform : Task → Service driver (Unit {0})
  perform (active_staking body) = active_staking_handler format body
  perform (unbonding_staking body) = unbonding_staking_handler format body
  perform (expired_staking body) = expired_staking_handler format body
  perform (withdraw_staking body) = withdraw_staking_handler format body
  perform (stats body) = stats_handler format cfg body
  perform (btc_info body) = btc_info_handler format body
  perform (unprocessable body receipt) = save_unprocessable_messages body receipt
  perform (unbond hash tx_hash tx_hex signature) =
      unbond_delegation cfg hash tx_hash tx_hex signature

  -- Each task comes with the fates of its calls; its result goes back to who asked.
  unfoldable pub run : World driver.mongo → List (Task × List Fate) → World driver.mongo
  run w [] = w
  run w ((task, fates) ∷ rest) = run (perform task (record w { fates = fates })).1 rest
