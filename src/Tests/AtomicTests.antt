-- ===== src/Tests/AtomicTests.antt =====
-- Store/Unbonding/Atomic.antt at an active delegation
use staking_api_service.Base.{◌≡◌, ◌⊎◌, ◌==◌, if◌then◌else◌, some, none, false}
use staking_api_service.Base.Exec.{err}
use staking_api_service.Types.Errors.{GoError}
use staking_api_service.Driver.{World}
use staking_api_service.Store.Delegations.{active_document}
use staking_api_service.Store.Unbonding.{save_unbonding_tx}
use staking_api_service.Store.Unbonding.Atomic.{Requested, save_unbonding_tx-AllOrNothing}
use staking_api_service.Tests.Memory.{memory, empty_world}

abbrev active_world : World memory.mongo
active_world = record empty_world {
  visible = record (empty_world.visible) {
    db = record (empty_world.db) {
      delegations = λ j.
          if "h" == j
          then some
              (active_document ⦃driver = memory⦄ "h" "staker" "provider" "tx" 100 7 50 0 1 false)
          else none;
    };
  };
}

save_unbonding_tx-AllOrNothing_example :
    let r = save_unbonding_tx ⦃driver = memory⦄ "h" "u" "unbonding" "signature" active_world in
    ((e : GoError) × (r.0 ≡ err e) × (r.1.visible ≡ active_world.visible))
    ⊎ Requested ⦃driver = memory⦄ "h" "u" "unbonding" "signature" active_world.visible r.1.visible
save_unbonding_tx-AllOrNothing_example =
    save_unbonding_tx-AllOrNothing ⦃driver = memory⦄ "h" "u" "unbonding" "signature" active_world
