-- ===== src/Ledger/Books.antt =====
-- The two books of internal/v1/db/client/stats.go, of finality providers and of stakers: each of
-- their transactions that succeeds posts one entry, and nothing else touches them.
use staking_api_service.Base.{String, Bool, false, refl, Option, some, none, List, [], ◌∷◌}
use staking_api_service.Model.{StatsLockDocument, StatsDocument}
use staking_api_service.Driver.{Mongo, Visible}
use staking_api_service.Driver.Keeps.{Preorder}
use staking_api_service.Store.StatsLock.{LockField, staker, finality_provider, is_locked}
use staking_api_service.Ledger.Entries.{
  Books, Entry, Posted, Unchanged, Ledger, none_posted, posted, Ledger-append,
}

pub data Side : Type 0 where
  providers stakers : Side

abbrev pub field : Side → LockField
field providers = finality_provider
field stakers = staker

abbrev pub flag : LockField → Option StatsLockDocument → Bool
flag f none = false
flag f (some d) = is_locked f d

module _ {m : Mongo} where
  abbrev pub stats : Side → Visible m → String → Option StatsDocument
  stats providers v k = m.finality_provider_stats.view v.db.finality_provider_stats k
  stats stakers v k = m.staker_stats.view v.db.staker_stats k

  abbrev pub flags : Side → Visible m → String → Bool
  flags s v k = flag (field s) (m.stats_lock.view v.db.stats_lock k)

  abbrev pub books : Side → Visible m → Books
  books s v = record { locked = flags s v; stats = stats s v }

-- some entries lead from one state to the other
pub record Posts (u v : Books) : Type 0 where
  pub entries : List Entry
  pub ledger : Ledger u entries v

pub Unchanged-refl : (u : Books) → Unchanged u u
Unchanged-refl u = record { flags = λ k. refl; docs = λ k. refl }

pub Posts-Unchanged : {u v : Books} → Unchanged u v → Posts u v
Posts-Unchanged s = record { entries = []; ledger = none_posted s }

pub Posts-one : {u v : Books} (e : Entry) → Posted e u v → Posts u v
Posts-one e p = record { entries = e ∷ []; ledger = posted e (none_posted (Unchanged-refl _)) p }

abbrev pub posts : (m : Mongo) → Side → Preorder (Visible m)
posts m s = record {
  Rel = λ u v. Posts (books s u) (books s v);
  reflexive = λ u. Posts-Unchanged (Unchanged-refl _);
  transitive = λ u v w p q. record { entries = _; ledger = Ledger-append p.ledger q.ledger };
}
