-- ===== src/Tests/LedgerTests.antt =====
-- Ledger/*.antt at concrete inputs
use staking_api_service.Base.{map}
use staking_api_service.Tasks.{run}
use staking_api_service.Ledger.Entries.{Distinct, lock_id}
use staking_api_service.Ledger.Books.{Posts, providers, books}
use staking_api_service.Ledger.Tasks.{run-Posts, counted_once}
use staking_api_service.Tests.Memory.{memory, toy_btc, toy_format, toy_config, empty_world}
use staking_api_service.Tests.LifecycleTests.{retried}

run-Posts_example : Posts (books {m = memory.mongo} providers empty_world.visible) (
    books {m = memory.mongo} providers
      (run ⦃driver = memory⦄ ⦃btc = toy_btc⦄ toy_format toy_config empty_world retried).visible)
run-Posts_example =
    run-Posts ⦃driver = memory⦄ ⦃btc = toy_btc⦄ toy_format toy_config empty_world retried providers

counted_once_example : Distinct (
    map lock_id
      (run-Posts ⦃driver = memory⦄ ⦃btc = toy_btc⦄ toy_format toy_config empty_world retried
        providers).entries)
counted_once_example =
    counted_once ⦃driver = memory⦄ ⦃btc = toy_btc⦄ toy_format toy_config empty_world retried
      providers
