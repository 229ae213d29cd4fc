-- ===== src/Store/Access.antt =====
-- The calls of the driver that the database clients make, collection by collection.
pub mod Effects
use staking_api_service.Base.{Option, none, some}
use staking_api_service.Base.Exec.{ok, Exec, pure, fail}
use staking_api_service.Types.Errors.{GoError, no_documents}
use staking_api_service.Driver.{Mongo, Db, World, Driver, call}

-- a program part that may fail with a Go `error`
abbrev pub Client : Driver → Type 0 → Type 0
Client d A = Exec (World d.mongo) GoError A

-- `Decode` of what `FindOne` found
abbrev pub decode : {m : Mongo} {A : Type 0} → Option A → Exec (World m) GoError A
decode none = fail no_documents
decode (some a) = pure a

module _ {m : Mongo} where
  abbrev pub set_db : World m → Db m → World m
  set_db w db = record w { visible = record w.visible { db = db } }

  -- A read: the world stays.
  abbrev pub query : {A : Type 0} → (Db m → A) → Exec (World m) GoError A
  query f w = (ok (f w.db), w)

  -- A write: what it returns, and the new database.
  abbrev pub command : {A : Type 0} → (Db m → A × Db m) → Exec (World m) GoError A
  command f w = let (a, db) = f w.db in (ok a, set_db w db)

-- `Client.StartSession()`
unfoldable pub start_session : (d : Driver) → Client d (Unit {0})
start_session d = call (pure tt)
