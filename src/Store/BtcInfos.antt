-- ===== src/Store/BtcInfos.antt =====
-- internal/v1/db/client/btc_info.go
pub mod Latest
use staking_api_service.Base.{Bool, true, ltb, if◌then◌else◌}
use staking_api_service.Base.Exec.{pure, fail, try, ◌>>=◌, ◌>>◌}
use staking_api_service.Types.Errors.{GoError, document_not_found, is_no_documents}
use staking_api_service.Model.{Uint64, BtcInfo, latest_btc_info_id}
use staking_api_service.Driver.{Driver, Work, call}
use staking_api_service.Store.Access.{Client, decode, query, command, start_session}

module _ ⦃driver : Driver⦄ where
  open driver use {mongo}

  unfoldable pub find_btc_info : Client driver BtcInfo
  find_btc_info = do
    found ← call (query (λ db. mongo.btc_info.find_one latest_btc_info_id (λ d. true) db.btc_info))
    decode found

  unfoldable pub insert_btc_info : BtcInfo → Client driver Bool
  insert_btc_info info = call (
      command (λ db.
        let (inserted, s) = mongo.btc_info.insert_one latest_btc_info_id info db.btc_info in
        (inserted, record db { btc_info = s })))

  unfoldable pub update_btc_info : BtcInfo → Client driver Bool
  update_btc_info info = call (
      command (λ db.
        let (matched, s) =
          mongo.btc_info.update_one latest_btc_info_id (λ d. true) (λ d. info) db.btc_info in
        (matched, record db { btc_info = s })))

  abbrev pub latest_info : (height confirmed_tvl unconfirmed_tvl : Uint64) → BtcInfo
  latest_info height confirmed_tvl unconfirmed_tvl = record {
    id = latest_btc_info_id;
    btc_height = height;
    confirmed_tvl = confirmed_tvl;
    unconfirmed_tvl = unconfirmed_tvl;
  }

  -- `InsertOne` fails where the key is taken.
  unfoldable pub insert_new : BtcInfo → Work driver.mongo
  insert_new info = do
    inserted ← insert_btc_info info
    if inserted then pure tt else fail (GoError.external "duplicate key")

  -- the callback of the transaction
  unfoldable pub upsert_latest_btc_info_work :
      (height confirmed_tvl unconfirmed_tvl : Uint64) → Work driver.mongo
  upsert_latest_btc_info_work height confirmed_tvl unconfirmed_tvl =
      let info = latest_info height confirmed_tvl unconfirmed_tvl in
      try find_btc_info (λ e. if is_no_documents e then insert_new info else fail e)
        (λ existing.
          if ltb existing.btc_height height
          then (update_btc_info info >>= λ _. pure tt)
          else pure tt)

  unfoldable pub upsert_latest_btc_info :
      (height confirmed_tvl unconfirmed_tvl : Uint64) → Client driver (Unit {0})
  upsert_latest_btc_info height confirmed_tvl unconfirmed_tvl =
      start_session driver
      >> driver.with_transaction (upsert_latest_btc_info_work height confirmed_tvl unconfirmed_tvl)

  unfoldable pub get_latest_btc_info : Client driver BtcInfo
  unfolding find_btc_info
  get_latest_btc_info =
      try find_btc_info
        (λ e. fail (
          if is_no_documents e
          then document_not_found latest_btc_info_id "Latest Btc info not found"
          else e))
        pure
