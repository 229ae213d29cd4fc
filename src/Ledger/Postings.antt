-- ===== src/Ledger/Postings.antt =====
-- A transaction of a book that returns no error took its lock, which was free, and changed one
-- document.
use staking_api_service.Base.{
  String, Bool, true, false, not, ◌≡◌, refl, sym, ◌∙◌, subst, Option, some, none, ◌==◌,
  if◌then◌else◌, arith,
}
use staking_api_service.Base.Exec.{◌>>◌}
use staking_api_service.Model.{StatsLockDocument, StatsDocument, Uint64}
use staking_api_service.Types.States.{to_string, active, unbonded}
use staking_api_service.Driver.{Driver, Mongo, Visible, keep_if, change_if, is_some, Work}
use staking_api_service.Driver.Leads.{
  Leads, Leads-call, Leads-bind, Leads-if, Leads-pure, Leads-fail,
}
use staking_api_service.Store.Access.Effects.{Leads-command}
use staking_api_service.Store.StatsLock.{
  LockField, is_locked, lock, lock_once, update_stats_lock_by_field_name, construct_stats_lock_id,
}
use staking_api_service.Store.Stats.{
  Increment, inc, upsert_finality_provider_stats, upsert_staker_stats, active_increment,
  unbonded_decrement,
}
use staking_api_service.Ledger.Entries.{
  Entry, counted_in, counted_out, lock_id, pk, increment, Posted,
}
use staking_api_service.Ledger.Books.{
  Side, providers, stakers, field, flag, stats, flags, books, Posts, Posts-one,
}

-- the lock with an id is taken
pub record Taken {m : Mongo} (s : Side) (id : String) (u v : Visible m) : Type 0 where
  pub fresh : flags s u id ≡ false
  pub set : (k : String) → flags s v k ≡ (if id == k then true else flags s u k)
  pub same : (k : String) → stats s v k ≡ stats s u k

-- the document with a key is changed
pub record Counted {m : Mongo} (s : Side) (key : String) (i : Increment) (u v : Visible m)
    : Type 0 where
  pub doc :
      (k : String)
      → stats s v k ≡ (if key == k then some (inc key i (stats s u key)) else stats s u k)
  pub same : (k : String) → flags s v k ≡ flags s u k

Posted-both :
    {m : Mongo} (s : Side) (e : Entry) (u v w : Visible m)
    → Taken s (lock_id e) u v
    → Counted s (pk e) (increment e) v w
    → Posted e (books s u) (books s w)
Posted-both s e u v w t c = record {
  fresh = t.fresh;
  flags = λ k. c.same k ∙ t.set k;
  docs = λ k. c.doc k ∙ ap2_docs k (t.same (pk e)) (t.same k);
}
  where
    ap2_docs :
        (k : String) {a b c d : Option StatsDocument}
        → a ≡ b
        → c ≡ d
        → (if pk e == k then some (inc (pk e) (increment e) a) else c)
          ≡ (if pk e == k then some (inc (pk e) (increment e) b) else d)
    ap2_docs k p q = rw p (rw q refl)

free :
    (s : Side) (o : Option StatsLockDocument)
    → is_some (keep_if (λ d. not (is_locked (field s) d)) o) ≡ true
    → flag (field s) o ≡ false
free s none h = refl
free s (some d) h = ground (arith, h)

taken :
    (s : Side) (o : Option StatsLockDocument)
    → is_some (keep_if (λ d. not (is_locked (field s) d)) o) ≡ true
    → flag (field s) (change_if (λ d. not (is_locked (field s) d)) (lock (field s)) o) ≡ true
taken s none h = absurd (ground (arith, h))
taken providers (some d) h = ground (arith, h)
taken stakers (some d) h = ground (arith, h)

-- a choice of documents, by their flags
flag-if :
    (f : LockField) (b : Bool) (x y : Option StatsLockDocument)
    → flag f x ≡ true
    → flag f (if b then x else y) ≡ (if b then true else flag f y)
flag-if f true x y h = h
flag-if f false x y h = refl

module _ ⦃driver : Driver⦄ where
  open driver use {mongo}

  abbrev pub after_lock : LockField → String → Visible mongo → Visible mongo
  after_lock f id v = record v {
    db = record (v.db) {
      stats_lock =
          (mongo.stats_lock.update_one id (λ d. not (is_locked f d)) (lock f) v.db.stats_lock).1;
    };
  }

  pub stats-after_lock :
      (s : Side) (f : LockField) (id : String) (v : Visible mongo) (k : String)
      → stats s (after_lock f id v) k ≡ stats s v k
  stats-after_lock providers f id v k = refl
  stats-after_lock stakers f id v k = refl

  lock_once-Taken :
      (s : Side) (id : String)
      → Leads (λ matched u v. matched ≡ true → Taken s id u v) (lock_once id (field s))
  unfolding lock_once
  lock_once-Taken s id = Leads-call (
      Leads-command _ (λ v h.
        let matched = sym (mongo.stats_lock.update_one_matched id _ _ v.db.stats_lock) ∙ h in
        record {
          fresh = free s (mongo.stats_lock.view v.db.stats_lock id) matched;
          set = λ k. rw mongo.stats_lock.view-update_one (
              flag-if (field s) (id == k) _ _
                (taken s (mongo.stats_lock.view v.db.stats_lock id) matched));
          same = stats-after_lock s (field s) id v;
        }))

  take_lock :
      (s : Side) (hash state : String)
      → Leads
          (λ _. Taken s (construct_stats_lock_id hash state))
          (update_stats_lock_by_field_name hash state (field s))
  unfolding update_stats_lock_by_field_name
  take_lock s hash state =
      Leads-bind {S = λ m a u v. (m ≡ true) × (u ≡ v)}
        (λ m a u v w t e. subst (Taken s _ u) e.1 (t e.0)) (lock_once-Taken s _)
        (λ m. Leads-if m (λ e. Leads-pure tt (λ v. (e, refl))) (λ e. Leads-fail _))

  unfoldable pub upsert : Side → String → Increment → Work mongo
  upsert providers key i = upsert_finality_provider_stats key i
  upsert stakers key i = upsert_staker_stats key i

  upsert-Counted :
      (s : Side) (key : String) (i : Increment) → Leads (λ _. Counted s key i) (upsert s key i)
  unfolding upsert upsert_finality_provider_stats upsert_staker_stats
  upsert-Counted providers key i = Leads-call (
      Leads-command _ (λ v. record {
        doc =
            mongo.finality_provider_stats.view-upsert_one key (inc key i)
              v.db.finality_provider_stats;
        same = λ k. refl;
      }))
  upsert-Counted stakers key i = Leads-call (
      Leads-command _ (λ v. record {
        doc = mongo.staker_stats.view-upsert_one key (inc key i) v.db.staker_stats;
        same = λ k. refl;
      }))

  pub counted_in-Posts :
      (s : Side) (hash key : String) (amount : Uint64)
      → Leads
          (λ _ u v. Posts (books s u) (books s v))
          (update_stats_lock_by_field_name hash (to_string active) (field s)
            >> upsert s key (active_increment amount))
  counted_in-Posts s hash key amount =
      Leads-bind
        (λ _ _ u v w t c. Posts-one (counted_in hash key amount) (Posted-both s _ u v w t c))
        (take_lock s hash _) (λ _. upsert-Counted s key _)

  pub counted_out-Posts :
      (s : Side) (hash key : String) (amount : Uint64)
      → Leads
          (λ _ u v. Posts (books s u) (books s v))
          (update_stats_lock_by_field_name hash (to_string unbonded) (field s)
            >> upsert s key (unbonded_decrement amount))
  counted_out-Posts s hash key amount =
      Leads-bind
        (λ _ _ u v w t c. Posts-one (counted_out hash key amount) (Posted-both s _ u v w t c))
        (take_lock s hash _) (λ _. upsert-Counted s key _)
