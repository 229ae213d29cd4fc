-- ===== src/Ledger/Entries.antt =====
-- Ledgers over any statistics: flags by the key of a lock, documents by their key.
use mathlib.Core.List.{Memᴰ}
use staking_api_service.Base.{
  String, Bool, true, false, ◌≡◌, sym, ◌∙◌, Option, some, List, [], ◌∷◌, ◌++◌, ◌==◌, eq_iff,
  if◌then◌else◌, arith, map,
}
use staking_api_service.Types.States.{to_string, active, unbonded}
use staking_api_service.Model.{Uint64, StatsDocument}
use staking_api_service.Store.Stats.{Increment, inc, active_increment, unbonded_decrement}
use staking_api_service.Store.StatsLock.{construct_stats_lock_id}

-- one side of the statistics: which flags are set, and what is stored
pub record Books : Type 0 where
  pub locked : String → Bool
  pub stats : String → Option StatsDocument

-- a delegation of the amount that was counted in when it became active, or out when it was unbonded
pub data Entry : Type 0 where
  counted_in counted_out : (hash pk : String) (amount : Uint64) → Entry

abbrev pub lock_id : Entry → String
lock_id (counted_in hash pk amount) = construct_stats_lock_id hash (to_string active)
lock_id (counted_out hash pk amount) = construct_stats_lock_id hash (to_string unbonded)

abbrev pub pk : Entry → String
pk (counted_in hash key amount) = key
pk (counted_out hash key amount) = key

abbrev pub increment : Entry → Increment
increment (counted_in hash pk amount) = active_increment amount
increment (counted_out hash pk amount) = unbonded_decrement amount

-- the books after an entry
pub record Posted (e : Entry) (u v : Books) : Type 0 where
  pub fresh : u.locked (lock_id e) ≡ false
  pub flags : (k : String) → v.locked k ≡ (if lock_id e == k then true else u.locked k)
  pub docs :
      (k : String)
      → v.stats k
        ≡ (if pk e == k then some (inc (pk e) (increment e) (u.stats (pk e))) else u.stats k)

pub record Unchanged (u v : Books) : Type 0 where
  pub flags : (k : String) → u.locked k ≡ v.locked k
  pub docs : (k : String) → u.stats k ≡ v.stats k

-- The entries that lead from one state of the books to another, newest first.
pub data Ledger (u : Books) : List Entry → Books → Type 0 where
  none_posted : {v : Books} → Unchanged u v → Ledger u [] v
  posted :
      {v w : Books} {es : List Entry} (e : Entry)
      → Ledger u es v
      → Posted e v w
      → Ledger u (e ∷ es) w

Posted-Unchanged : {e : Entry} {u v w : Books} → Posted e u v → Unchanged v w → Posted e u w
Posted-Unchanged p s = record {
  fresh = p.fresh;
  flags = λ k. sym (s.flags k) ∙ p.flags k;
  docs = λ k. sym (s.docs k) ∙ p.docs k;
}

pub Ledger-Unchanged :
    {u v w : Books} {es : List Entry} → Ledger u es v → Unchanged v w → Ledger u es w
Ledger-Unchanged (none_posted r) s =
    none_posted (record { flags = λ k. r.flags k ∙ s.flags k; docs = λ k. r.docs k ∙ s.docs k })
Ledger-Unchanged (posted e l p) s = posted e l (Posted-Unchanged p s)

pub Ledger-append :
    {u v w : Books} {es fs : List Entry} → Ledger u es v → Ledger v fs w → Ledger u (fs ++ es) w
Ledger-append l (none_posted s) = Ledger-Unchanged l s
Ledger-append l (posted e k p) = posted e (Ledger-append l k) p

-- A flag that is set stays set, along any ledger.
pub locked-stays :
    {u v : Books} {es : List Entry} (k : String)
    → Ledger u es v
    → u.locked k ≡ true
    → v.locked k ≡ true
locked-stays k (none_posted s) h = sym (s.flags k) ∙ h
locked-stays k (posted e l p) h = ground (arith, p.flags k, locked-stays k l h)

-- An entry sets its flag.
pub entry-locked :
    {u v : Books} {es : List Entry} (k : String)
    → Ledger u es v
    → Memᴰ k (map lock_id es)
    → v.locked k ≡ true
entry-locked k (none_posted s) m = elim m [ ]
entry-locked k (posted e l p) (Memᴰ.head same) = ground (arith, p.flags k, eq_iff (lock_id e) k)
entry-locked k (posted e l p) (Memᴰ.tail m) = ground (arith, p.flags k, entry-locked k l m)

-- No lock is taken twice, so no entry is posted twice.
pub data Distinct : List String → Type 0 where
  distinct_none : Distinct []
  distinct_more : {k : String} {ks : List String} → ¬ Memᴰ k ks → Distinct ks → Distinct (k ∷ ks)

pub Ledger-Distinct : {u v : Books} {es : List Entry} → Ledger u es v → Distinct (map lock_id es)
Ledger-Distinct (none_posted s) = distinct_none
Ledger-Distinct (posted e l p) =
    distinct_more (λ m. ground (arith, p.fresh, entry-locked (lock_id e) l m)) (Ledger-Distinct l)
