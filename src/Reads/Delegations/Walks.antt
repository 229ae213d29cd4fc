-- ===== src/Reads/Delegations/Walks.antt =====
-- Reading all pages of the delegations, by scan or by staker.
use mathlib.Core.List.{Memᴰ}
use staking_api_service.Base.{
  ℕ, String, Bool, true, false, ◌&&◌, ◌||◌, ◌==◌, ◌≡◌, refl, none, List, eqb, ltb, ◌⊎◌, inl, inr,
  arith,
}
use staking_api_service.Base.Texts.{text_ltb-asymm, text_ltb_trans, text_ltb-total}
use staking_api_service.Model.{DelegationDocument}
use staking_api_service.Reads.{Source, Json, Base64}
use staking_api_service.Reads.Order.{StrictOrder, Comparable}
use staking_api_service.Reads.Pages.{Serves}
use staking_api_service.Reads.Served.{Serves-source}
use staking_api_service.Reads.Tokens.{nonempty_test, decode_pagination_token-get_pagination_token}
use staking_api_service.Reads.Delegations.{
  DelegationByStakerPagination, DelegationScanPagination, by_start_height, by_id, page_of_staker,
  build_delegation_by_staker_pagination_token, build_delegation_scan_pagination_token,
  build_additional_delegation_filter, find_delegations_by_staker_pk, scan_delegations_paginated,
}

abbrev pub by_id-StrictOrder : StrictOrder DelegationDocument
by_id-StrictOrder = record {
  before = by_id;
  asymm = λ a b h. text_ltb-asymm a.staking_tx_hash_hex b.staking_tx_hash_hex h;
  trans = λ a b c h k.
      text_ltb_trans a.staking_tx_hash_hex b.staking_tx_hash_hex c.staking_tx_hash_hex h k;
}

-- two numbers and two texts, in the order of `by_start_height`
pub height_asymm :
    (x y : ℕ) (p q : Bool)
    → (ltb y x || (eqb y x && p)) ≡ true
    → (p ≡ true → q ≡ false)
    → (ltb x y || (eqb x y && q)) ≡ false
height_asymm x y p q h f = ground arith

pub height_trans :
    (x y z : ℕ) (p q r : Bool)
    → (ltb y x || (eqb y x && p)) ≡ true
    → (ltb z y || (eqb z y && q)) ≡ true
    → (p ≡ true → q ≡ true → r ≡ true)
    → (ltb z x || (eqb z x && r)) ≡ true
height_trans x y z p q r h k f = ground arith

height_total :
    (x y : ℕ) (p q : Bool)
    → (p ≡ true) ⊎ (q ≡ true)
    → ((ltb y x || (eqb y x && p)) ≡ true) ⊎ ((ltb x y || (eqb x y && q)) ≡ true)
height_total x y p q h = ground arith

abbrev pub by_start_height-StrictOrder : StrictOrder DelegationDocument
by_start_height-StrictOrder = record {
  before = by_start_height;
  asymm = λ a b h.
      height_asymm a.staking_tx.start_height b.staking_tx.start_height (by_id a b) (by_id b a) h
        (by_id-StrictOrder.asymm a b);
  trans = λ a b c h k.
      height_trans a.staking_tx.start_height b.staking_tx.start_height c.staking_tx.start_height
        (by_id a b) (by_id b c) (by_id a c) h k (by_id-StrictOrder.trans a b c);
}

-- `_id` is a primary key.
abbrev pub UniqueIds : List DelegationDocument → Type 0
UniqueIds docs =
    (a b : DelegationDocument)
    → Memᴰ a docs
    → Memᴰ b docs
    → a.staking_tx_hash_hex ≡ b.staking_tx_hash_hex
    → a ≡ b

module _ (docs : List DelegationDocument) (unique : UniqueIds docs)
    (filter : DelegationDocument → Bool) where
  pub by_id-Comparable : Comparable docs filter by_id-StrictOrder
  by_id-Comparable a b m n h k = elim (text_ltb-total a.staking_tx_hash_hex b.staking_tx_hash_hex) [
    | inl e ↦ inl (unique a b m n e)
    | inr o ↦ inr o
  ]

  pub by_start_height-Comparable : Comparable docs filter by_start_height-StrictOrder
  by_start_height-Comparable a b m n h k = elim (by_id-Comparable a b m n h k) [
    | inl e ↦ inl e
    | inr o ↦
        inr (
          height_total a.staking_tx.start_height b.staking_tx.start_height (by_id a b) (by_id b a)
            o)
  ]

module _ (source : Source DelegationDocument) (unique : UniqueIds source.docs) (limit : ℕ)
    (up : source.failure ≡ none) ⦃base64 : Base64⦄ where
  pub Serves-scan :
      ⦃scan : Json DelegationScanPagination⦄
      → Serves limit build_delegation_scan_pagination_token
          (scan_delegations_paginated source limit)
          (source.rows (λ d. true) by_id)
  unfolding scan_delegations_paginated build_delegation_scan_pagination_token
  Serves-scan =
      Serves-source source (λ d. true) by_id-StrictOrder
        (by_id-Comparable source.docs unique (λ d. true)) limit
        build_delegation_scan_pagination_token up (scan_delegations_paginated source limit) refl
        (λ d stored.
          let (token, k, nonempty, back) =
            decode_pagination_token-get_pagination_token {T = DelegationScanPagination}
              (record { staking_tx_hash_hex = d.staking_tx_hash_hex }) in
          (
            token,
            k,
            nonempty,
            (λ x. by_id d x),
            (λ x m. refl),
            rw (nonempty_test token nonempty, back) refl,
          ))

  pub Serves-by_staker :
      ⦃by_staker : Json DelegationByStakerPagination⦄ (staker_pk : String)
      → Serves limit build_delegation_by_staker_pagination_token
          (find_delegations_by_staker_pk source limit staker_pk none)
          (source.rows (λ d. d.staker_pk_hex == staker_pk) by_start_height)
  unfolding find_delegations_by_staker_pk build_delegation_by_staker_pagination_token
      build_additional_delegation_filter page_of_staker
  Serves-by_staker staker_pk =
      let filter : DelegationDocument → Bool = λ d. d.staker_pk_hex == staker_pk in
      Serves-source source filter by_start_height-StrictOrder
        (by_start_height-Comparable source.docs unique filter) limit
        build_delegation_by_staker_pagination_token up
        (find_delegations_by_staker_pk source limit staker_pk none) refl
        (λ d stored.
          let token_of : DelegationByStakerPagination = record {
            staking_tx_hash_hex = d.staking_tx_hash_hex;
            staking_start_height = d.staking_tx.start_height;
          } in
          let (token, k, nonempty, back) = decode_pagination_token-get_pagination_token token_of in
          (
            token,
            k,
            nonempty,
            page_of_staker staker_pk token_of,
            (λ x m.
                same (filter x) x.staking_tx.start_height d.staking_tx.start_height (by_id d x)),
            rw (nonempty_test token nonempty, back) refl,
          ))
    where
      same :
          (p : Bool) (x d : ℕ) (after : Bool)
          → ((p && ltb x d) || (p && eqb x d && after)) ≡ (p && (ltb x d || (eqb x d && after)))
      same p x d after = ground arith
