-- ===== src/Ledger/Tasks.antt =====
-- The books over every list of tasks.
use staking_api_service.Base.{
  map, Bool-cases, inl, inr, String, Bool, ◌≡◌, refl, sym, List, Option, some, none,
}
use staking_api_service.Model.{Uint64, StatsLockDocument}
use staking_api_service.Driver.{Driver, change_if, World, Fate}
use staking_api_service.Driver.Keeps.{Keeps, Keeps-bind, Keeps-with_transaction, Keeps-call}
use staking_api_service.Driver.Leads.{KeepsOk-of_Leads}
use staking_api_service.Store.Access.{start_session}
use staking_api_service.Store.StatsLock.{
  LockField, is_locked, lock, overall, staker, finality_provider, lock_once,
}
use staking_api_service.Store.Stats.{
  Increment, upsert_finality_provider_stats, upsert_staker_stats, upsert_overall_stats,
  increment_finality_provider_stats, subtract_finality_provider_stats, increment_staker_stats,
  subtract_staker_stats, update_finality_provider_stats, update_staker_stats,
  update_finality_provider_stats_work, update_staker_stats_work,
}
use staking_api_service.Utils.Bitcoin.{Btc}
use staking_api_service.Service.Params.{Config}
use staking_api_service.Queue.Events.{EventFormat}
use staking_api_service.Tasks.{Task, run}
use staking_api_service.Tasks.Calls.{
  start_session-Keeps, increment_provider-Keeps, subtract_provider-Keeps, increment_staker-Keeps,
  subtract_staker-Keeps, increment_overall-Keeps, subtract_overall-Keeps, upsert_info-Keeps,
  addresses-Keeps,
}
use staking_api_service.Tasks.DelegationCalls.{
  find_delegation-Keeps, save_active-Keeps, to_unbonding-Keeps, to_unbonded-Keeps,
  to_withdrawn-Keeps, save_unbonding-Keeps,
}
use staking_api_service.Tasks.Keeps.{StoreKeeps, run-Keeps}
use staking_api_service.Ledger.Entries.{Distinct, Ledger-Distinct, lock_id}
use staking_api_service.Ledger.Books.{
  Side, providers, stakers, books, flag, field, Unchanged-refl, Posts, Posts-Unchanged, posts,
}
use staking_api_service.Ledger.Postings.{
  upsert, counted_in-Posts, counted_out-Posts, after_lock, stats-after_lock,
}
use staking_api_service.Ledger.Quiet.{quiet_call, calls, delegation_calls, flag-at}

-- the field is not the side's
data Elsewhere : Side → LockField → Type 0 where
  whole : {s : Side} → Elsewhere s overall
  other_staker : Elsewhere providers staker
  other_provider : Elsewhere stakers finality_provider

is_locked-lock :
    {s : Side} {f : LockField}
    → Elsewhere s f
    → (d : StatsLockDocument) → is_locked (field s) (lock f d) ≡ is_locked (field s) d
is_locked-lock {s = providers} whole d = refl
is_locked-lock {s = stakers} whole d = refl
is_locked-lock other_staker d = refl
is_locked-lock other_provider d = refl

flag-change_if :
    {s : Side} {f : LockField}
    → Elsewhere s f
    → (p : StatsLockDocument → Bool) (o : Option StatsLockDocument)
    → flag (field s) (change_if p (lock f) o) ≡ flag (field s) o
flag-change_if e p none = refl
flag-change_if e p (some d) = elim (Bool-cases (p d)) [
  | inl allowed ↦ rw allowed (is_locked-lock e d)
  | inr refused ↦ rw refused refl
]

module _ ⦃driver : Driver⦄ where
  open driver use {mongo}

  lock_elsewhere :
      {s : Side} {f : LockField}
      → Elsewhere s f
      → (id : String) → Keeps (posts mongo s) (lock_once id f)
  unfolding lock_once
  lock_elsewhere {s = s} {f = f} e id = Keeps-call _ (record {
    at = λ w.
        Posts-Unchanged {u = books s w.visible} {v = books s (after_lock f id w.visible)} (record {
          flags = λ k. rw mongo.stats_lock.view-update_one (
              flag-at s (mongo.stats_lock.view w.db.stats_lock) _ (field s) id k
                (flag-change_if e _ (mongo.stats_lock.view w.db.stats_lock id)));
          docs = λ k. sym (stats-after_lock s f id w.visible k);
        });
  })

  upsert_overall :
      (s : Side) (shard : String) (i : Increment) (n : Uint64)
      → Keeps (posts mongo s) (upsert_overall_stats shard i n)
  unfolding upsert_overall_stats
  upsert_overall s shard i n = quiet_call s _ (λ w. refl) (λ w. refl) (λ w. refl)

  upsert_staker :
      (pk : String) (i : Increment) → Keeps (posts mongo providers) (upsert_staker_stats pk i)
  unfolding upsert_staker_stats
  upsert_staker pk i = Keeps-call _ (record { at = λ w. Posts-Unchanged (Unchanged-refl _) })

  upsert_provider :
      (pk : String) (i : Increment)
      → Keeps (posts mongo stakers) (upsert_finality_provider_stats pk i)
  unfolding upsert_finality_provider_stats
  upsert_provider pk i = Keeps-call _ (record { at = λ w. Posts-Unchanged (Unchanged-refl _) })

  session : (s : Side) → Keeps (posts mongo s) (start_session driver)
  session s = start_session-Keeps

  increment_provider :
      (s : Side) (hash pk : String) (amount : Uint64)
      → Keeps (posts mongo s) (increment_finality_provider_stats hash pk amount)
  unfolding increment_finality_provider_stats update_finality_provider_stats
      update_finality_provider_stats_work upsert
  increment_provider providers hash pk amount = Keeps-bind _ _ start_session-Keeps (λ _.
      Keeps-with_transaction driver _
        (KeepsOk-of_Leads (counted_in-Posts providers hash pk amount)))
  increment_provider stakers hash pk amount =
      increment_provider-Keeps (lock_elsewhere other_provider) upsert_provider hash pk amount

  subtract_provider :
      (s : Side) (hash pk : String) (amount : Uint64)
      → Keeps (posts mongo s) (subtract_finality_provider_stats hash pk amount)
  unfolding subtract_finality_provider_stats update_finality_provider_stats
      update_finality_provider_stats_work upsert
  subtract_provider providers hash pk amount = Keeps-bind _ _ start_session-Keeps (λ _.
      Keeps-with_transaction driver _
        (KeepsOk-of_Leads (counted_out-Posts providers hash pk amount)))
  subtract_provider stakers hash pk amount =
      subtract_provider-Keeps (lock_elsewhere other_provider) upsert_provider hash pk amount

  increment_staker :
      (s : Side) (hash pk : String) (amount : Uint64)
      → Keeps (posts mongo s) (increment_staker_stats hash pk amount)
  unfolding increment_staker_stats update_staker_stats update_staker_stats_work upsert
  increment_staker stakers hash pk amount = Keeps-bind _ _ start_session-Keeps (λ _.
      Keeps-with_transaction driver _ (KeepsOk-of_Leads (counted_in-Posts stakers hash pk amount)))
  increment_staker providers hash pk amount =
      increment_staker-Keeps (lock_elsewhere other_staker) upsert_staker hash pk amount

  subtract_staker :
      (s : Side) (hash pk : String) (amount : Uint64)
      → Keeps (posts mongo s) (subtract_staker_stats hash pk amount)
  unfolding subtract_staker_stats update_staker_stats update_staker_stats_work upsert
  subtract_staker stakers hash pk amount = Keeps-bind _ _ start_session-Keeps (λ _.
      Keeps-with_transaction driver _ (KeepsOk-of_Leads (counted_out-Posts stakers hash pk amount)))
  subtract_staker providers hash pk amount =
      subtract_staker-Keeps (lock_elsewhere other_staker) upsert_staker hash pk amount

  store : (s : Side) → StoreKeeps (posts mongo s)
  store s = record {
    find_delegation = find_delegation-Keeps (delegation_calls s);
    save_active = save_active-Keeps (delegation_calls s);
    save_unbonding = save_unbonding-Keeps (delegation_calls s);
    to_unbonding = to_unbonding-Keeps (delegation_calls s);
    to_unbonded = to_unbonded-Keeps (delegation_calls s);
    to_withdrawn = to_withdrawn-Keeps (delegation_calls s);
    expire_check = (calls s).expire_check;
    upsert_btc_info = upsert_info-Keeps (calls s);
    stats_lock = (calls s).stats_lock;
    increment_provider = increment_provider s;
    subtract_provider = subtract_provider s;
    increment_staker = increment_staker s;
    subtract_staker = subtract_staker s;
    increment_overall = increment_overall-Keeps (calls s) (lock_elsewhere whole) (upsert_overall s);
    subtract_overall = subtract_overall-Keeps (calls s) (lock_elsewhere whole) (upsert_overall s);
    save_addresses = addresses-Keeps (calls s);
    save_unprocessable = (calls s).unprocessable;
    send_event = (calls s).send_event;
  }

module _ ⦃driver : Driver⦄ ⦃btc : Btc⦄ where
  -- Over any tasks and any faults of the network, what each book (of finality providers, of stakers)
  -- holds at the end is what it held at the start with a list of entries posted on it, each of a
  -- delegation counted in (its amount and one more delegation added) or counted out (subtracted), under a
  -- lock that was free before that entry and is taken by it; and nothing else changes the book.
  pub run-Posts :
      (format : EventFormat) (cfg : Config) (w : World driver.mongo)
      (tasks : List (Task × List Fate)) (s : Side)
      → Posts (books s w.visible) (books s (run format cfg w tasks).visible)
  run-Posts format cfg w tasks s = run-Keeps (store s) format cfg w tasks

  -- No lock is taken by two of those entries, however often a message is delivered or a transaction
  -- tried again.
  pub counted_once :
      (format : EventFormat) (cfg : Config) (w : World driver.mongo)
      (tasks : List (Task × List Fate)) (s : Side)
      → Distinct (map lock_id (run-Posts format cfg w tasks s).entries)
  counted_once format cfg w tasks s = Ledger-Distinct (run-Posts format cfg w tasks s).ledger
