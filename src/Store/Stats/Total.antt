-- ===== src/Store/Stats/Total.antt =====
-- The sum over the shards, when one of them is changed.
use mathlib.Core.List.{Memᴰ}
use staking_api_service.Base.{
  ℕ, zero, suc, ◌<◌, ◌≤◌, String, ◌==◌, eq_iff, ◌≡◌, ◌≢◌, refl, ◌∙◌, ap, subst, Option, none, some,
  Bool-cases, ◌⊎◌, inl, inr, arith, if◌then◌else◌,
}
use staking_api_service.Model.{Uint64, add64, OverallStatsDocument}
use staking_api_service.Store.Stats.{Increment, inc_overall}
use staking_api_service.Store.Stats.Sprint.{sprint}
use staking_api_service.Store.Stats.Shards.{shards_id, add_overall, add_found, sum_found}
use staking_api_service.Store.Stats.Digits.{sprint-injective}

-- the ids of the shards are different
shards-below : (n k : ℕ) → n ≤ k → Memᴰ (sprint k) (shards_id n) → ⊥
unfolding shards_id
shards-below zero k h m = elim m [ ]
shards-below (suc n) k h (Memᴰ.head e) = omega (arith, h, sprint-injective k n e)
shards-below (suc n) k h (Memᴰ.tail m) = shards-below n k (omega (arith, h)) m

pub shard-Mem : (n k : ℕ) → k < n → Memᴰ (sprint k) (shards_id n)
unfolding shards_id
shard-Mem zero k h = absurd (omega (arith, h))
shard-Mem (suc n) k h = elim (last n k h) [
  | inl e ↦ Memᴰ.head (ap sprint e)
  | inr l ↦ Memᴰ.tail (shard-Mem n k l)
]
  where
    last : (n k : ℕ) → k < suc n → (k ≡ n) ⊎ (k < n)
    last n k h = ground (arith, h)

swap_add : (a b c : ℕ) → add64 (add64 a b) c ≡ add64 (add64 a c) b
swap_add a b c = omega arith

add_new : (a b : ℕ) → add64 a (add64 0 b) ≡ add64 a b
add_new a b = omega arith

add_more : (a b c : ℕ) → add64 a (add64 b c) ≡ add64 (add64 a b) c
add_more a b c = omega arith

-- one more or one less in one shard is one more or one less in the sum
module _ (i : Increment) (k : Uint64) where
  add_overall-inc :
      (s : String) (o : Option OverallStatsDocument) (r : OverallStatsDocument)
      → add_overall (inc_overall s i k o) r ≡ inc_overall "" i k (some (add_found o r))
  unfolding add_overall inc_overall
  add_overall-inc s none r = λ j. record r {
    active_tvl = add_new r.active_tvl i.active_tvl j;
    total_tvl = add_new r.total_tvl i.total_tvl j;
    active_delegations = add_new r.active_delegations i.active_delegations j;
    total_delegations = add_new r.total_delegations i.total_delegations j;
    total_stakers = add_new r.total_stakers k j;
  }
  add_overall-inc s (some d) r = λ j. record r {
    active_tvl = add_more r.active_tvl d.active_tvl i.active_tvl j;
    total_tvl = add_more r.total_tvl d.total_tvl i.total_tvl j;
    active_delegations = add_more r.active_delegations d.active_delegations i.active_delegations j;
    total_delegations = add_more r.total_delegations d.total_delegations i.total_delegations j;
    total_stakers = add_more r.total_stakers d.total_stakers k j;
  }

  add_found-inc :
      (o : Option OverallStatsDocument) (r : OverallStatsDocument)
      → add_found o (inc_overall "" i k (some r)) ≡ inc_overall "" i k (some (add_found o r))
  unfolding add_overall inc_overall
  add_found-inc none r = refl
  add_found-inc (some d) r = λ j. record r {
    active_tvl = swap_add r.active_tvl i.active_tvl d.active_tvl j;
    total_tvl = swap_add r.total_tvl i.total_tvl d.total_tvl j;
    active_delegations = swap_add r.active_delegations i.active_delegations d.active_delegations j;
    total_delegations = swap_add r.total_delegations i.total_delegations d.total_delegations j;
    total_stakers = swap_add r.total_stakers k d.total_stakers j;
  }

  module _ (find find' : String → Option OverallStatsDocument) (s : String)
      (changed : (j : String)
        → find' j ≡ (if s == j then some (inc_overall s i k (find s)) else find j)) where
    at : find' s ≡ some (inc_overall s i k (find s))
    at = changed s ∙ rw ((eq_iff s s).1 refl) refl

    elsewhere : (j : String) → s ≢ j → find' j ≡ find j
    elsewhere j h = elim (Bool-cases (s == j)) [
      | inl e ↦ absurd (h ((eq_iff s j).0 e))
      | inr e ↦ changed j ∙ rw (e) refl
    ]

    sum-unchanged :
        (n : ℕ)
        → (Memᴰ s (shards_id n) → ⊥)
        → sum_found find' (shards_id n) ≡ sum_found find (shards_id n)
    unfolding shards_id sum_found
    sum-unchanged zero h = refl
    sum-unchanged (suc n) h =
        cc (elsewhere (sprint n) (λ e. h (Memᴰ.head e)), sum-unchanged n (λ m. h (Memᴰ.tail m)))

    pub sum-changed :
        (n : ℕ)
        → Memᴰ s (shards_id n)
        → sum_found find' (shards_id n) ≡ inc_overall "" i k (some (sum_found find (shards_id n)))
    unfolding shards_id sum_found
    sum-changed zero m = elim m [ ]
    sum-changed (suc n) (Memᴰ.head e) =
        let here = subst (λ x. find' x ≡ some (inc_overall s i k (find x))) e at in
        let absent : (Memᴰ s (shards_id n) → ⊥) =
          λ m. shards-below n n (omega arith) (subst (λ x. Memᴰ x (shards_id n)) e m) in
        ap (λ o. add_found o (sum_found find' (shards_id n))) here
        ∙ ap (λ r. add_found (some (inc_overall s i k (find (sprint n)))) r)
            (sum-unchanged n absent)
        ∙ add_overall-inc s (find (sprint n)) (sum_found find (shards_id n))
    sum-changed (suc n) (Memᴰ.tail m) =
        let other =
          elsewhere (sprint n)
            (λ e. shards-below n n (omega arith) (subst (λ x. Memᴰ x (shards_id n)) e m)) in
        ap (λ o. add_found o (sum_found find' (shards_id n))) other
        ∙ ap (add_found (find (sprint n))) (sum-changed n m)
        ∙ add_found-inc (find (sprint n)) (sum_found find (shards_id n))
