-- ===== src/Types/V2States/Told.antt =====
-- What the flattening of internal/v2/types/delegation_states.go keeps, and what it refuses.
use mathlib.Core.Option.{some-injective, none-ne-some}
use staking_api_service.Base.{
  String, ◌==◌, eq_iff, Bool-cases, ◌≡◌, refl, sym, ◌∙◌, subst, ◌⊎◌, inl, inr, some, none,
  if◌then◌else◌,
}
use staking_api_service.Base.Exec.{Result, ok, err}
use staking_api_service.Types.Errors.{GoError}
use staking_api_service.Driver.Leads.{err-ok}
use staking_api_service.Types.V2States.{
  IndexerState, IndexerSubState, V2State, indexer_state_pending, indexer_state_verified,
  indexer_state_active, indexer_state_unbonding, indexer_state_withdrawable,
  indexer_state_withdrawn, indexer_state_slashed, sub_state_timelock, sub_state_early_unbonding,
  sub_state_timelock_slashing, sub_state_early_unbonding_slashing, state_pending, state_verified,
  state_active, state_timelock_unbonding, state_early_unbonding, state_timelock_withdrawable,
  state_early_unbonding_withdrawable, state_timelock_slashing_withdrawable,
  state_early_unbonding_slashing_withdrawable, state_timelock_withdrawn,
  state_early_unbonding_withdrawn, state_timelock_slashing_withdrawn,
  state_early_unbonding_slashing_withdrawn, state_timelock_slashed, state_early_unbonding_slashed,
  flattened_unbonding, flattened_withdrawable, flattened_withdrawn, flattened_slashed,
  map_delegation_state, state_of, sub_state_of, Tells,
}

Kept : IndexerState → IndexerSubState → Result GoError V2State → Type 0
Kept s t (ok v) = Tells v s t
Kept s t (err e) = Unit {0}

module _ (s : IndexerState) (t : IndexerSubState) where
  choose :
      (x c : String) (a b : Result GoError V2State)
      → (c ≡ x → Kept s t a)
      → Kept s t b
      → Kept s t (if x == c then a else b)
  choose x c a b f g = elim (Bool-cases (x == c)) [
    | inl h ↦ rw h (f (sym ((eq_iff x c).0 h)))
    | inr h ↦ rw h g
  ]

  tells :
      (v : V2State) (c : IndexerSubState)
      → sub_state_of v ≡ some c
      → state_of v ≡ s
      → c ≡ t
      → Tells v s t
  tells v c h k e = (k, inl (h ∙ (λ i. some (e i))))

  flattened_unbonding-Kept : indexer_state_unbonding ≡ s → Kept s t (flattened_unbonding t)
  unfolding Kept
  flattened_unbonding-Kept k =
      choose t sub_state_timelock (ok state_timelock_unbonding) _
        (tells state_timelock_unbonding sub_state_timelock refl k)
        (choose t sub_state_early_unbonding (ok state_early_unbonding) _
          (tells state_early_unbonding sub_state_early_unbonding refl k) tt)

  flattened_withdrawable-Kept : indexer_state_withdrawable ≡ s → Kept s t (flattened_withdrawable t)
  unfolding Kept
  flattened_withdrawable-Kept k =
      choose t sub_state_timelock (ok state_timelock_withdrawable) _
        (tells state_timelock_withdrawable sub_state_timelock refl k)
        (choose t sub_state_early_unbonding (ok state_early_unbonding_withdrawable) _
          (tells state_early_unbonding_withdrawable sub_state_early_unbonding refl k)
          (choose t sub_state_timelock_slashing (ok state_timelock_slashing_withdrawable) _
            (tells state_timelock_slashing_withdrawable sub_state_timelock_slashing refl k)
            (choose t sub_state_early_unbonding_slashing
              (ok state_early_unbonding_slashing_withdrawable) _
              (tells state_early_unbonding_slashing_withdrawable sub_state_early_unbonding_slashing
                refl k)
              tt)))

  flattened_withdrawn-Kept : indexer_state_withdrawn ≡ s → Kept s t (flattened_withdrawn t)
  unfolding Kept
  flattened_withdrawn-Kept k =
      choose t sub_state_timelock (ok state_timelock_withdrawn) _
        (tells state_timelock_withdrawn sub_state_timelock refl k)
        (choose t sub_state_early_unbonding (ok state_early_unbonding_withdrawn) _
          (tells state_early_unbonding_withdrawn sub_state_early_unbonding refl k)
          (choose t sub_state_timelock_slashing (ok state_timelock_slashing_withdrawn) _
            (tells state_timelock_slashing_withdrawn sub_state_timelock_slashing refl k)
            (choose t sub_state_early_unbonding_slashing
              (ok state_early_unbonding_slashing_withdrawn) _
              (tells state_early_unbonding_slashing_withdrawn sub_state_early_unbonding_slashing
                refl k)
              tt)))

  flattened_slashed-Kept : indexer_state_slashed ≡ s → Kept s t (flattened_slashed t)
  unfolding Kept
  flattened_slashed-Kept k =
      choose t sub_state_timelock (ok state_timelock_slashed) _
        (tells state_timelock_slashed sub_state_timelock refl k)
        (choose t sub_state_early_unbonding (ok state_early_unbonding_slashed) _
          (tells state_early_unbonding_slashed sub_state_early_unbonding refl k) tt)

  kept : Kept s t (map_delegation_state s t)
  unfolding Kept map_delegation_state
  kept =
      choose s indexer_state_pending (ok state_pending) _ (λ k. (k, inr refl))
        (choose s indexer_state_verified (ok state_verified) _ (λ k. (k, inr refl))
          (choose s indexer_state_active (ok state_active) _ (λ k. (k, inr refl))
            (choose s indexer_state_unbonding (flattened_unbonding t) _ flattened_unbonding-Kept (
              choose s indexer_state_withdrawable (flattened_withdrawable t) _
                flattened_withdrawable-Kept
                (choose s indexer_state_withdrawn (flattened_withdrawn t) _ flattened_withdrawn-Kept
                  (choose s indexer_state_slashed (flattened_slashed t) _ flattened_slashed-Kept
                    tt))))))

-- A flattened state tells the state it was made from, and its substate unless it tells of none (which
-- is so for pending, verified and active).
pub map_delegation_state-ok :
    (s : IndexerState) (t : IndexerSubState) (v : V2State)
    → map_delegation_state s t ≡ ok v
    → (state_of v ≡ s) × ((sub_state_of v ≡ some t) ⊎ (sub_state_of v ≡ none))
unfolding Kept
map_delegation_state-ok s t v h = subst (Kept s t) h (kept s t)

at_sub_state :
    {c : String} (t : String) (P : String → Type 0)
    → (some c ≡ some t) ⊎ (some c ≡ none)
    → P c
    → P t
at_sub_state t P (inl h) p = subst P (some-injective _ t h) p
at_sub_state t P (inr h) p = absurd (none-ne-some _ (sym h))

made_from :
    (v : V2State) (t : IndexerSubState)
    → (sub_state_of v ≡ some t) ⊎ (sub_state_of v ≡ none)
    → map_delegation_state (state_of v) t ≡ ok v
unfolding map_delegation_state
made_from state_pending t h = refl
made_from state_verified t h = refl
made_from state_active t h = refl
made_from state_timelock_unbonding t h =
    at_sub_state t
      (λ u. map_delegation_state indexer_state_unbonding u ≡ ok state_timelock_unbonding) h refl
made_from state_early_unbonding t h =
    at_sub_state t (λ u. map_delegation_state indexer_state_unbonding u ≡ ok state_early_unbonding)
      h refl
made_from state_timelock_withdrawable t h =
    at_sub_state t
      (λ u. map_delegation_state indexer_state_withdrawable u ≡ ok state_timelock_withdrawable) h
      refl
made_from state_early_unbonding_withdrawable t h =
    at_sub_state t
      (λ u.
        map_delegation_state indexer_state_withdrawable u ≡ ok state_early_unbonding_withdrawable)
      h refl
made_from state_timelock_slashing_withdrawable t h =
    at_sub_state t
      (λ u.
        map_delegation_state indexer_state_withdrawable u ≡ ok state_timelock_slashing_withdrawable)
      h refl
made_from state_early_unbonding_slashing_withdrawable t h =
    at_sub_state t
      (λ u.
        map_delegation_state indexer_state_withdrawable u
        ≡ ok state_early_unbonding_slashing_withdrawable)
      h refl
made_from state_timelock_withdrawn t h =
    at_sub_state t
      (λ u. map_delegation_state indexer_state_withdrawn u ≡ ok state_timelock_withdrawn) h refl
made_from state_early_unbonding_withdrawn t h =
    at_sub_state t
      (λ u. map_delegation_state indexer_state_withdrawn u ≡ ok state_early_unbonding_withdrawn) h
      refl
made_from state_timelock_slashing_withdrawn t h =
    at_sub_state t
      (λ u. map_delegation_state indexer_state_withdrawn u ≡ ok state_timelock_slashing_withdrawn) h
      refl
made_from state_early_unbonding_slashing_withdrawn t h =
    at_sub_state t
      (λ u.
        map_delegation_state indexer_state_withdrawn u
        ≡ ok state_early_unbonding_slashing_withdrawn)
      h refl
made_from state_timelock_slashed t h =
    at_sub_state t (λ u. map_delegation_state indexer_state_slashed u ≡ ok state_timelock_slashed) h
      refl
made_from state_early_unbonding_slashed t h =
    at_sub_state t
      (λ u. map_delegation_state indexer_state_slashed u ≡ ok state_early_unbonding_slashed) h refl

-- A pair of states is refused only if no flattened state tells of it, whatever two texts they are.
pub map_delegation_state-err :
    (s : IndexerState) (t : IndexerSubState) (e : GoError)
    → map_delegation_state s t ≡ err e
    → (v : V2State) → ¬ Tells v s t
map_delegation_state-err s t e h v (same, sub) =
    err-ok (sym h ∙ subst (λ r. map_delegation_state r t ≡ ok v) same (made_from v t sub))
