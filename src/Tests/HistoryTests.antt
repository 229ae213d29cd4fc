-- ===== src/Tests/HistoryTests.antt =====
-- History/Tasks.antt at concrete inputs
use staking_api_service.Tasks.{run}
use staking_api_service.History.Grows.{Grows}
use staking_api_service.History.Tasks.{run-Grows}
use staking_api_service.Tests.Memory.{memory, toy_btc, toy_format, toy_config, empty_world}
use staking_api_service.Tests.LifecycleTests.{retried}

run-Grows_example :
    Grows {m = memory.mongo} empty_world.visible
      (run ⦃driver = memory⦄ ⦃btc = toy_btc⦄ toy_format toy_config empty_world retried).visible
run-Grows_example =
    run-Grows ⦃driver = memory⦄ ⦃btc = toy_btc⦄ toy_format toy_config empty_world retried
