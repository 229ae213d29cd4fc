-- ===== src/Reads/Delegations/Filtered.antt =====
-- Reading the delegations of a staker with an extra filter: what the first page shows, and what the
-- next one does.
use mathlib.Core.List.{Memᴰ}
use staking_api_service.Base.{
  ℕ, zero, suc, ◌<◌, String, Bool, true, false, ◌&&◌, ◌||◌, ◌==◌, eq_iff, ◌≡◌, ◌↔◌, refl, sym, ◌∙◌,
  ap, subst, ◌⊎◌, inl, inr, Option, some, none, List, [], ◌∷◌, ◌++◌, eqb, ltb, arith, if◌then◌else◌,
}
use staking_api_service.Base.Exec.{Result, ok}
use staking_api_service.Types.Errors.{GoError}
use staking_api_service.Types.States.{
  DelegationState, active, unbonding_requested, unbonding, unbonded, withdrawn, state_eq, contains,
}
use staking_api_service.Model.{Int64, DelegationDocument}
use staking_api_service.Reads.{
  Source, Json, Base64, length, take, last?, DbResultMap, find, find_with_pagination,
}
use staking_api_service.Reads.Pages.{first_page, full_page, answer_for, last?-append}
use staking_api_service.Reads.Tokens.{nonempty_test, decode_pagination_token-get_pagination_token}
use staking_api_service.Reads.Delegations.{
  DelegationFilter, DelegationByStakerPagination, Filter, signed_leb, in_states, started_from,
  by_start_height, by_id, page_of_staker, build_additional_delegation_filter,
  build_delegation_by_staker_pagination_token, find_delegations_by_staker_pk,
}
use staking_api_service.Reads.Delegations.Walks.{
  UniqueIds, by_start_height-StrictOrder, by_start_height-Comparable,
}

abbrev HasState : Option (List DelegationState) → DelegationState → Type 0
HasState none s = Unit {0}
HasState (some l) s = Memᴰ s l

-- what a filter asks for: one of its states, if it names any, and a start at its time or later, if it
-- has one
abbrev pub Allowed : DelegationFilter → DelegationDocument → Type 0
Allowed filters d =
    HasState filters.states d.state
    × ((filters.after_timestamp ≡ 0)
        ⊎ (signed_leb filters.after_timestamp d.staking_tx.start_timestamp ≡ true))

all_of : (a b c : Bool) → ((a && b && c) ≡ true) ↔ ((a ≡ true) × (b ≡ true) × (c ≡ true))
all_of true true c = ((λ h. (refl, refl, h)), (λ h. h.2))
all_of true false c = ((λ h. absurd (ground (arith, h))), (λ h. absurd (ground (arith, h.1))))
all_of false b c = ((λ h. absurd (ground (arith, h))), (λ h. absurd (ground (arith, h.0))))

or-split : (a b : Bool) → (a || b) ≡ true → (a ≡ true) ⊎ (b ≡ true)
or-split true b h = inl refl
or-split false b h = inr h

or-join : (a b : Bool) → (a ≡ true) ⊎ (b ≡ true) → (a || b) ≡ true
or-join true b h = refl
or-join false b h = ground (arith, h)

state_eq-same : (s t : DelegationState) → state_eq s t ≡ true → s ≡ t
state_eq-same active active h = refl
state_eq-same unbonding_requested unbonding_requested h = refl
state_eq-same unbonding unbonding h = refl
state_eq-same unbonded unbonded h = refl
state_eq-same withdrawn withdrawn h = refl
state_eq-same _ _ h = absurd (ground (arith, h))

state_eq_refl : (s : DelegationState) → state_eq s s ≡ true
state_eq_refl active = refl
state_eq_refl unbonding_requested = refl
state_eq_refl unbonding = refl
state_eq_refl unbonded = refl
state_eq_refl withdrawn = refl

contains-Mem : (l : List DelegationState) (s : DelegationState) → contains l s ≡ true → Memᴰ s l
unfolding contains
contains-Mem [] s h = absurd (ground (arith, h))
contains-Mem (x ∷ l) s h = elim (or-split (state_eq x s) (contains l s) h) [
  | inl e ↦ Memᴰ.head (sym (state_eq-same x s e))
  | inr e ↦ Memᴰ.tail (contains-Mem l s e)
]

Mem-contains : (l : List DelegationState) (s : DelegationState) → Memᴰ s l → contains l s ≡ true
unfolding contains
Mem-contains [] s m = elim m [ ]
Mem-contains (x ∷ l) s (Memᴰ.head e) =
    or-join (state_eq x s) (contains l s)
      (inl (subst (λ y. state_eq y s ≡ true) e (state_eq_refl s)))
Mem-contains (x ∷ l) s (Memᴰ.tail m) =
    or-join (state_eq x s) (contains l s) (inr (Mem-contains l s m))

in_states-HasState :
    (o : Option (List DelegationState)) (d : DelegationDocument)
    → (in_states o d ≡ true) ↔ HasState o d.state
in_states-HasState none d = ((λ h. tt), (λ t. refl))
in_states-HasState (some l) d = (contains-Mem l d.state, Mem-contains l d.state)

started :
    (after start : Int64) (b : Bool)
    → ((if eqb after 0 then true else b) ≡ true) ↔ ((after ≡ 0) ⊎ (b ≡ true))
started after start b = ((λ h. ground arith), (λ h. ground arith))

take-take : {D : Type 0} (n : ℕ) (l : List D) → take n (take (suc n) l) ≡ take n l
take-take zero [] = refl
take-take zero (x ∷ l) = refl
take-take (suc n) [] = refl
take-take (suc n) (x ∷ l) = ap (λ t. x ∷ t) (take-take n l)

module _ (filters : DelegationFilter) (staker_pk : String) where
  -- the filter of the first page
  abbrev pub allowed : Filter
  allowed = build_additional_delegation_filter (λ d. d.staker_pk_hex == staker_pk) (some filters)

  allowed_iff :
      (d : DelegationDocument)
      → (allowed d ≡ true) ↔ ((d.staker_pk_hex ≡ staker_pk) × Allowed filters d)
  unfolding build_additional_delegation_filter
  allowed_iff d =
      let own = d.staker_pk_hex == staker_pk in
      let state = in_states filters.states d in
      let late = started_from filters.after_timestamp d in
      let in_time =
        started filters.after_timestamp d.staking_tx.start_timestamp
          (signed_leb filters.after_timestamp d.staking_tx.start_timestamp) in
      let parts = all_of own state late in
      let states = in_states-HasState filters.states d in
      let key = eq_iff d.staker_pk_hex staker_pk in
      (
        (λ h. let (a, b, c) = parts.0 h in (key.0 a, (states.0 b, in_time.0 c))),
        (λ h. parts.1 (key.1 h.0, states.1 h.1.0, in_time.1 h.1.1)),
      )

-- the staker's delegations that come after one of them, whatever their states
abbrev pub later_than : String → DelegationDocument → Filter
later_than staker_pk last d = d.staker_pk_hex == staker_pk && by_start_height last d

module _ (source : Source DelegationDocument) (limit : ℕ) ⦃base64 : Base64⦄
    ⦃by_staker : Json DelegationByStakerPagination⦄ (staker_pk : String)
    (filters : DelegationFilter) where
  abbrev shown : List DelegationDocument
  shown = source.rows (allowed filters staker_pk) by_start_height

  abbrev answer : Filter → Result GoError (DbResultMap DelegationDocument)
  answer filter =
      answer_for limit build_delegation_by_staker_pagination_token
        (source.rows filter by_start_height)

  -- the last delegation of the first page and the page's token, and what the two requests answer
  pub record Continued : Type 0 where
    pub last : DelegationDocument
    pub token : String
    pub last_shown : last? (take limit shown) ≡ some last
    pub first :
        find_delegations_by_staker_pk source limit staker_pk (some filters) ""
        ≡ ok (record { items = take limit shown; pagination_token = token })
    pub next :
        (extra_filter : Option DelegationFilter)
        → find_delegations_by_staker_pk source limit staker_pk extra_filter token
          ≡ answer (later_than staker_pk last)

module _ (source : Source DelegationDocument) (unique : UniqueIds source.docs) (limit : ℕ)
    (positive : 0 < limit) (up : source.failure ≡ none) ⦃base64 : Base64⦄
    ⦃by_staker : Json DelegationByStakerPagination⦄ (staker_pk : String)
    (filters : DelegationFilter) where
  abbrev rows : List DelegationDocument
  rows = shown source limit staker_pk filters

  abbrev answers : Filter → Result GoError (DbResultMap DelegationDocument)
  answers = answer source limit staker_pk filters

  same :
      (p : Bool) (x d : ℕ) (after : Bool)
      → ((p && ltb x d) || (p && eqb x d && after)) ≡ (p && (ltb x d || (eqb x d && after)))
  same p x d after = ground arith

  read_rows :
      (filter : Filter)
      → find_with_pagination source filter by_start_height limit
          build_delegation_by_staker_pagination_token
        ≡ answers filter
  unfolding find_with_pagination find
  read_rows filter = rw (up) refl

  continued : limit < length rows → Continued source limit staker_pk filters
  unfolding find_delegations_by_staker_pk build_delegation_by_staker_pagination_token page_of_staker
  continued many =
      let p = first_page limit rows positive many in
      let position : DelegationByStakerPagination = record {
        staking_tx_hash_hex = p.last.staking_tx_hash_hex;
        staking_start_height = p.last.staking_tx.start_height;
      } in
      let (token, k, nonempty, back) = decode_pagination_token-get_pagination_token position in
      let page : take limit rows ≡ p.front ++ (p.last ∷ []) = sym (take-take limit rows) ∙ p.page in
      record {
        last = p.last;
        token = token;
        last_shown = ap last? page ∙ last?-append p.front p.last;
        first =
            read_rows (allowed filters staker_pk)
            ∙ full_page limit build_delegation_by_staker_pagination_token rows p token k
            ∙ (λ i. ok (record { items = sym page i; pagination_token = token }));
        next = λ extra_filter.
            rw (nonempty_test token nonempty, back)
              (read_rows (page_of_staker staker_pk position) ∙ (λ i. answers (λ d.
                same (d.staker_pk_hex == staker_pk) d.staking_tx.start_height
                  p.last.staking_tx.start_height (by_id p.last d) i)));
      }

  -- If more delegations of the staker pass the extra filter than a page has, then the first page shows
  -- the first of them, in order, and no other delegation; but its token leads on to all of the staker's
  -- delegations that come after the last one shown, in every state and from every time, whatever extra
  -- filter comes with the token. (The ids of the stored delegations are distinct, the limit is positive
  -- and reads succeed.)
  pub find_delegations_by_staker_pk-Continued :
      limit < length (source.rows (allowed filters staker_pk) by_start_height)
      → Continued source limit staker_pk filters
        × ((d : DelegationDocument)
            → Memᴰ d (source.rows (allowed filters staker_pk) by_start_height)
              ↔ (Memᴰ d source.docs × (d.staker_pk_hex ≡ staker_pk) × Allowed filters d))
  find_delegations_by_staker_pk-Continued many = (
    continued many,
    λ d.
        let mem =
          source.rows-mem (allowed filters staker_pk) by_start_height-StrictOrder
            (by_start_height-Comparable source.docs unique (allowed filters staker_pk)) d in
        let meant = allowed_iff filters staker_pk d in
        (
          (λ m. let (stored, h) = mem.0 m in let (own, ok_by) = meant.0 h in (stored, own, ok_by)),
          (λ h. mem.1 (h.0, meant.1 (h.1, h.2))),
        ),
  )
