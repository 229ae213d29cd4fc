-- ===== src/Tests/LifecycleTests.antt =====
-- Lifecycle/*.antt at concrete inputs
use staking_api_service.Base.{List, [], ◌∷◌}
use staking_api_service.Driver.{Fate, delivered, lost, unacknowledged}
use staking_api_service.Tasks.{Task, active_staking, stats, run}
use staking_api_service.Lifecycle.Order.{Evolves}
use staking_api_service.Lifecycle.Tasks.{delegation, run-Evolves}
use staking_api_service.Tests.Memory.{memory, toy_btc, toy_format, toy_config, empty_world}

-- The active message is lost halfway, comes again, and comes a third time; so does the one to the
-- stats queue, which is counted in by its second delivery.
abbrev pub retried : List (Task × List Fate)
retried =
    (active_staking "h", delivered ∷ lost "queue" ∷ [])
    ∷ (active_staking "h", [])
    ∷ (stats "h", delivered ∷ unacknowledged "reply" ∷ [])
    ∷ (active_staking "h", [])
    ∷ (stats "h", [])
    ∷ (stats "h", [])
    ∷ []

run-Evolves_example : Evolves (delegation ⦃driver = memory⦄ empty_world "h") (
    delegation ⦃driver = memory⦄
      (run ⦃driver = memory⦄ ⦃btc = toy_btc⦄ toy_format toy_config empty_world retried)
      "h")
run-Evolves_example =
    run-Evolves ⦃driver = memory⦄ ⦃btc = toy_btc⦄ toy_format toy_config empty_world retried "h"
