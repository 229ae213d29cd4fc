-- ===== src/Driver.antt =====
-- What the program uses of the MongoDB driver and of the queues, which are not part of the
-- repository: collections and transactions with their documented behaviour, as a parameter of the
-- model, and the network between the program and them, as a list of what becomes of each call.
pub mod Keeps
pub mod Leads
pub mod Raises
use mathlib.Core.List.{Memᴰ}
use staking_api_service.Base.{
  ℕ, String, Bool, true, false, Option, none, some, List, [], ◌∷◌, ◌≡◌, ◌⊎◌, ◌==◌, if◌then◌else◌,
}
use staking_api_service.Base.Exec.{Result, ok, err, Exec}
use staking_api_service.Types.Errors.{GoError, external}
use staking_api_service.Model.{
  DelegationDocument, UnbondingDocument, TimeLockDocument, BtcInfo, StatsLockDocument,
  OverallStatsDocument, StatsDocument, PkAddressMapping, UnprocessableMessageDocument,
  V2StatsLockDocument, V2OverallStatsDocument,
}

module _ {A : Type 0} where
  abbrev pub keep_if : (A → Bool) → Option A → Option A
  keep_if p none = none
  keep_if p (some a) = if p a then some a else none

  abbrev pub change_if : (A → Bool) → (A → A) → Option A → Option A
  change_if p f none = none
  change_if p f (some a) = if p a then some (f a) else some a

  abbrev pub is_some : Option A → Bool
  is_some none = false
  is_some (some a) = true

  abbrev pub is_none : Option A → Bool
  is_none none = true
  is_none (some a) = false

  abbrev pub or_else : Option A → A → A
  or_else none b = b
  or_else (some a) b = a

-- A collection whose documents have one unique key (`_id` or a unique index). `view` is what is
-- stored, and no operation of the program; the rest are the driver's operations, as the server
-- executes them. `insert_one` says whether it inserted, `update_one` whether a document matched.
pub record Collection (D : Type 0) : Type 1 where
  pub State : Type 0
  pub view : State → String → Option D
  pub find_one : String → (D → Bool) → State → Option D
  pub insert_one : String → D → State → Bool × State
  pub update_one : String → (D → Bool) → (D → D) → State → Bool × State
  pub upsert_one : String → (Option D → D) → State → State
  pub find_one_lem : (k : String) (p : D → Bool) (s : State) → find_one k p s ≡ keep_if p (view s k)
  pub insert_one_done : (k : String) (d : D) (s : State) → (insert_one k d s).0 ≡ is_none (view s k)
  pub view-insert_one :
      (k : String) (d : D) (s : State) (j : String)
      → view (insert_one k d s).1 j ≡ (if k == j then some (or_else (view s k) d) else view s j)
  pub update_one_matched :
      (k : String) (p : D → Bool) (f : D → D) (s : State)
      → (update_one k p f s).0 ≡ is_some (keep_if p (view s k))
  pub view-update_one :
      (k : String) (p : D → Bool) (f : D → D) (s : State) (j : String)
      → view (update_one k p f s).1 j ≡ (if k == j then change_if p f (view s k) else view s j)
  pub view-upsert_one :
      (k : String) (f : Option D → D) (s : State) (j : String)
      → view (upsert_one k f s) j ≡ (if k == j then some (f (view s k)) else view s j)

-- Two address mappings agree in a field with a unique index.
abbrev pub SharesAddress : PkAddressMapping → PkAddressMapping → Type 0
SharesAddress d m =
    (d.taproot ≡ m.taproot)
    ⊎ (d.native_segwit_odd ≡ m.native_segwit_odd)
    ⊎ (d.native_segwit_even ≡ m.native_segwit_even)

-- A stored mapping that keeps another one out: it has its key, or one of its addresses.
abbrev pub KeptOut : PkAddressMapping → (String → Option PkAddressMapping) → Type 0
KeptOut d view =
    (k : String) × (m : PkAddressMapping) × (view k ≡ some m) × ((k ≡ d.pk_hex) ⊎ SharesAddress d m)

-- The collection of address mappings, whose key is `_id` and which has the unique indexes that
-- internal/shared/db/model/setup.go declares, on each of the three addresses. `insert_one` inserts
-- a mapping exactly if no index forbids it, and says whether it did.
pub record MappingCollection : Type 1 where
  pub State : Type 0
  pub view : State → String → Option PkAddressMapping
  pub insert_one : PkAddressMapping → State → Bool × State
  pub inserted-free :
      (d : PkAddressMapping) (s : State) → (insert_one d s).0 ≡ true → ¬ KeptOut d (view s)
  pub view-inserted :
      (d : PkAddressMapping) (s : State)
      → (insert_one d s).0 ≡ true
      → (j : String) → view (insert_one d s).1 j ≡ (if d.pk_hex == j then some d else view s j)
  pub refused-KeptOut :
      (d : PkAddressMapping) (s : State) → (insert_one d s).0 ≡ false → KeptOut d (view s)
  pub refused-same :
      (d : PkAddressMapping) (s : State) → (insert_one d s).0 ≡ false → (insert_one d s).1 ≡ s

-- A collection whose documents get a key of their own. `all` is what is stored, newest first, and
-- `find_all` what a read returns. `delete_one` deletes a document that passes a test, if there is one.
pub record Pile (D : Type 0) : Type 1 where
  pub State : Type 0
  pub all : State → List D
  pub insert_one : D → State → State
  pub find_all : State → List D
  pub delete_one : (D → Bool) → State → State
  pub all-insert_one : (d : D) (s : State) → all (insert_one d s) ≡ d ∷ all s
  pub find_all-mem : (s : State) (d : D) → Memᴰ d (find_all s) → Memᴰ d (all s)
  pub mem-delete_one :
      (p : D → Bool) (s : State) (d : D) → Memᴰ d (all (delete_one p s)) → Memᴰ d (all s)
  pub delete_one-mem :
      (p : D → Bool) (s : State) (d : D)
      → Memᴰ d (all s)
      → Memᴰ d (all (delete_one p s)) ⊎ (p d ≡ true)

-- the event types of the queue client that the replay script names, and any other one
pub data EventType : Type 0 where
  active_staking unbonding_staking withdraw_staking expired_staking stats btc_info : EventType
  other : ℕ → EventType

-- `StatsEvent` of the queue client
pub record StatsEvent : Type 0 where
  pub schema_version : ℕ
  pub staking_tx_hash_hex : String
  pub staker_pk_hex : String
  pub finality_provider_pk_hex : String
  pub staking_value : ℕ
  pub state : String
  pub is_overflow : Bool

pub record Mongo : Type 1 where
  pub delegations : Collection DelegationDocument
  pub unbonding : Collection UnbondingDocument
  pub timelock : Pile TimeLockDocument
  pub btc_info : Collection BtcInfo
  pub stats_lock : Collection StatsLockDocument
  pub overall_stats : Collection OverallStatsDocument
  pub staker_stats : Collection StatsDocument
  pub finality_provider_stats : Collection StatsDocument
  pub pk_address_mappings : MappingCollection
  pub unprocessable_messages : Pile UnprocessableMessageDocument
  pub v2_stats_lock : Collection V2StatsLockDocument
  pub v2_overall_stats : Collection V2OverallStatsDocument
  pub v2_staker_stats : Collection StatsDocument
  pub v2_finality_provider_stats : Collection StatsDocument

pub record Db (m : Mongo) : Type 0 where
  pub delegations : m.delegations.State
  pub unbonding : m.unbonding.State
  pub timelock : m.timelock.State
  pub btc_info : m.btc_info.State
  pub stats_lock : m.stats_lock.State
  pub overall_stats : m.overall_stats.State
  pub staker_stats : m.staker_stats.State
  pub finality_provider_stats : m.finality_provider_stats.State
  pub pk_address_mappings : m.pk_address_mappings.State
  pub unprocessable_messages : m.unprocessable_messages.State
  pub v2_stats_lock : m.v2_stats_lock.State
  pub v2_overall_stats : m.v2_overall_stats.State
  pub v2_staker_stats : m.v2_staker_stats.State
  pub v2_finality_provider_stats : m.v2_finality_provider_stats.State

-- What the program has done for others to see: the database, the stats queue, newest
-- first, and the messages that the replay script has sent, each with the type of its queue.
pub record Visible (m : Mongo) : Type 0 where
  pub db : Db m
  pub sent : List StatsEvent
  pub replayed : List (EventType × String)

-- What becomes of a call: it is executed and answered; it is not executed, and an error comes back;
-- it is executed, and its answer is lost.
pub data Fate : Type 0 where
  delivered : Fate
  lost unacknowledged : String → Fate

-- `fates` has the fate of each coming call (those past its end are delivered), and `random` the
-- values that the random source yields. `captured` is the variable of `IncrementOverallStats` that the
-- callback of its transaction changes and that survives a retry; with
-- `captured_providers` they are the two of the v2 statistics.
pub record World (m : Mongo) : Type 0 where
  pub visible : Visible m
  pub open visible use *
  pub fates : List Fate
  pub random : List ℕ
  pub captured : Bool
  pub captured_providers : Bool

next_fate : List Fate → Fate
next_fate [] = delivered
next_fate (f ∷ fs) = f

later_fates : List Fate → List Fate
later_fates [] = []
later_fates (f ∷ fs) = fs

module _ {m : Mongo} {A : Type 0} where
  abbrev answer : Fate → Result GoError A × World m → World m → Result GoError A × World m
  answer delivered done w = done
  answer (lost e) done w = (err (external e), w)
  answer (unacknowledged e) done w = (err (external e), done.1)

  -- A call of the driver or of a queue, over the network.
  unfoldable pub call : Exec (World m) GoError A → Exec (World m) GoError A
  unfolding next_fate later_fates
  call op w =
      let w' = record w { fates = later_fates w.fates } in answer (next_fate w.fates) (op w') w'

abbrev pub Work : Mongo → Type 0
Work m = Exec (World m) GoError (Unit {0})

-- What `session.WithTransaction` may come back with: the callback's work is undone and an error
-- returned, or one run of the callback that succeeded, from the same data, is in the database
-- (the driver may have run it before without success), whether or not the caller learns of it.
pub data Transacted {m : Mongo} (work : Work m) (w : World m)
    : Result GoError (Unit {0}) × World m → Type 0 where
  aborted : (e : GoError) (w' : World m) → w'.visible ≡ w.visible → Transacted work w (err e, w')
  committed :
      (v : World m) (r : Result GoError (Unit {0}))
      → v.visible ≡ w.visible
      → (work v).0 ≡ ok tt
      → Transacted work w (r, (work v).1)

-- With no fault on the way the callback runs once, and its error aborts the transaction.
pub record Driver : Type 1 where
  pub mongo : Mongo
  pub with_transaction : Work mongo → Work mongo
  pub transacted :
      (work : Work mongo) (w : World mongo) → Transacted work w (with_transaction work w)
  pub with_transaction_ok :
      (work : Work mongo) (w : World mongo)
      → w.fates ≡ []
      → (work w).0 ≡ ok tt
      → with_transaction work w ≡ work w
  pub with_transaction_err :
      (work : Work mongo) (w : World mongo) {e : GoError}
      → w.fates ≡ []
      → (work w).0 ≡ err e
      → ((with_transaction work w).0 ≡ err e)
        × ((with_transaction work w).1.visible ≡ w.visible)
        × ((with_transaction work w).1.fates ≡ [])
