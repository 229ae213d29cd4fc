-- ===== src/Tests/BtcInfoTests.antt =====
-- Store/BtcInfos/Latest.antt where a lower height is stored
use staking_api_service.Base.{◌≡◌, ◌⊎◌, ◌==◌, if◌then◌else◌, some, none}
use staking_api_service.Base.Exec.{err}
use staking_api_service.Types.Errors.{GoError}
use staking_api_service.Model.{latest_btc_info_id}
use staking_api_service.Driver.{World}
use staking_api_service.Store.BtcInfos.{latest_info, upsert_latest_btc_info}
use staking_api_service.Store.BtcInfos.Latest.{stored_info, newest, upsert_latest_btc_info-Upserted}
use staking_api_service.Tests.Memory.{memory, empty_world}

abbrev earlier_world : World memory.mongo
earlier_world = record empty_world {
  visible = record (empty_world.visible) {
    db = record (empty_world.db) {
      btc_info =
          λ j. if latest_btc_info_id == j then some (latest_info ⦃driver = memory⦄ 5 1 2) else none;
    };
  };
}

upsert_latest_btc_info-Upserted_example :
    let r = upsert_latest_btc_info ⦃driver = memory⦄ 9 3 4 earlier_world in
    ((e : GoError) × (r.0 ≡ err e) × (r.1.visible ≡ earlier_world.visible))
    ⊎ (stored_info ⦃driver = memory⦄ r.1.visible
        ≡ some (
            newest
              (latest_info ⦃driver = memory⦄ 9 3 4)
              (stored_info ⦃driver = memory⦄ earlier_world.visible)))
upsert_latest_btc_info-Upserted_example =
    upsert_latest_btc_info-Upserted ⦃driver = memory⦄ 9 3 4 earlier_world
