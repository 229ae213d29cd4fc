-- ===== src/Reads/Stats/Walks.antt =====
-- Reading all pages of the statistics, where no two documents have the same active TVL.
use mathlib.Core.List.{Memᴰ}
use staking_api_service.Base.{
  ℕ, ◌<◌, Bool, true, false, ◌&&◌, ◌||◌, ◌≡◌, ◌↔◌, refl, ◌∙◌, ap, subst, none, List, [], eqb, ltb,
  ◌⊎◌, inl, inr, arith, Bool-cases, eqb_iff,
}
use staking_api_service.Base.Exec.{ok}
use staking_api_service.Base.Texts.{text_ltb, text_ltb-asymm}
use staking_api_service.Model.{StatsDocument}
use staking_api_service.Reads.{Source, Json, Base64, length}
use staking_api_service.Reads.Order.{StrictOrder, Comparable, Ascending}
use staking_api_service.Reads.Pages.{Serves, for_pages-visits}
use staking_api_service.Reads.Served.{Serves-source}
use staking_api_service.Reads.Tokens.{nonempty_test, decode_pagination_token-get_pagination_token}
use staking_api_service.Reads.Delegations.Complete.{collect, read_all, for_each-collect}
use staking_api_service.Reads.Stats.{
  FinalityProviderStatsPagination, StakerStatsByStakerPagination, signed, by_active_tvl,
  page_by_tvl, build_finality_provider_stats_pagination_token, find_finality_provider_stats,
  build_staker_stats_by_staker_pagination_token, find_top_stakers_by_tvl,
}

pub tvl-asymm : (x y : ℕ) → ltb y x ≡ true → ltb x y ≡ false
tvl-asymm x y h = ground arith

pub tvl_trans : (x y z : ℕ) → ltb y x ≡ true → ltb z y ≡ true → ltb z x ≡ true
tvl_trans x y z h k = ground arith

tvl-total : (x y : ℕ) → (x ≡ y) ⊎ (ltb y x ≡ true) ⊎ (ltb x y ≡ true)
tvl-total x y = ground arith

unfoldable pub by_active_tvl-StrictOrder : StrictOrder StatsDocument
by_active_tvl-StrictOrder = record {
  before = by_active_tvl;
  asymm = λ a b. tvl-asymm (signed a.active_tvl) (signed b.active_tvl);
  trans = λ a b c. tvl_trans (signed a.active_tvl) (signed b.active_tvl) (signed c.active_tvl);
}

-- no two documents have the same active TVL
abbrev pub DistinctTvl : List StatsDocument → Type 0
DistinctTvl docs =
    (a b : StatsDocument)
    → Memᴰ a docs
    → Memᴰ b docs
    → signed a.active_tvl ≡ signed b.active_tvl
    → a ≡ b

module _ (source : Source StatsDocument) (distinct : DistinctTvl source.docs) where
  pub comparable : Comparable source.docs (λ d. true) by_active_tvl-StrictOrder
  unfolding by_active_tvl-StrictOrder
  comparable a b m n h k = elim (tvl-total (signed a.active_tvl) (signed b.active_tvl)) [
    | inl e ↦ inl (distinct a b m n e)
    | inr o ↦ inr o
  ]

  not_tied :
      (d x : StatsDocument)
      → Memᴰ d source.docs
      → Memᴰ x source.docs
      → (eqb x.active_tvl d.active_tvl && text_ltb x.id d.id) ≡ false
  not_tied d x m n = elim (Bool-cases (eqb x.active_tvl d.active_tvl)) [
    | inr e ↦ rw (e) refl
    | inl e ↦
        let same = distinct x d n m (ap signed ((eqb_iff x.active_tvl d.active_tvl).0 e)) in
        elim (Bool-cases (text_ltb x.id d.id)) [
          | inr f ↦ rw (e, f) refl
          | inl f ↦ absurd (own d (subst (λ y. text_ltb y.id d.id ≡ true) same f))
        ]
  ]
    where
      own : (y : StatsDocument) → text_ltb y.id y.id ≡ true → ⊥
      own y h = ground (arith, h, text_ltb-asymm y.id y.id h)

  page-after :
      (d x : StatsDocument)
      → Memᴰ d source.docs
      → Memᴰ x source.docs
      → page_by_tvl d.id d.active_tvl x ≡ by_active_tvl d x
  unfolding page_by_tvl
  page-after d x m n =
      rw (not_tied d x m n) (or-false (ltb (signed x.active_tvl) (signed d.active_tvl)))
    where
      or-false : (b : Bool) → (b || false) ≡ b
      or-false b = ground arith

  module _ (limit : ℕ) (up : source.failure ≡ none) ⦃base64 : Base64⦄ where
    pub Serves-providers :
        ⦃json : Json FinalityProviderStatsPagination⦄
        → Serves limit build_finality_provider_stats_pagination_token
            (find_finality_provider_stats source limit)
            (source.rows (λ d. true) by_active_tvl)
    unfolding find_finality_provider_stats build_finality_provider_stats_pagination_token
        by_active_tvl-StrictOrder
    Serves-providers =
        Serves-source source (λ d. true) by_active_tvl-StrictOrder comparable limit
          build_finality_provider_stats_pagination_token up
          (find_finality_provider_stats source limit) refl
          (λ d m.
            let (token, k, nonempty, back) =
              decode_pagination_token-get_pagination_token {T = FinalityProviderStatsPagination}
                (record { finality_provider_pk_hex = d.id; active_tvl = d.active_tvl }) in
            (
              token,
              k,
              nonempty,
              page_by_tvl d.id d.active_tvl,
              (λ x n. page-after d x m n),
              rw (nonempty_test token nonempty, back) refl,
            ))

    Serves-stakers :
        ⦃json : Json StakerStatsByStakerPagination⦄
        → Serves limit build_staker_stats_by_staker_pagination_token
            (find_top_stakers_by_tvl source limit)
            (source.rows (λ d. true) by_active_tvl)
    unfolding find_top_stakers_by_tvl build_staker_stats_by_staker_pagination_token
        by_active_tvl-StrictOrder
    Serves-stakers =
        Serves-source source (λ d. true) by_active_tvl-StrictOrder comparable limit
          build_staker_stats_by_staker_pagination_token up (find_top_stakers_by_tvl source limit)
          refl
          (λ d m.
            let (token, k, nonempty, back) =
              decode_pagination_token-get_pagination_token {T = StakerStatsByStakerPagination}
                (record { staker_pk_hex = d.id; active_tvl = d.active_tvl }) in
            (
              token,
              k,
              nonempty,
              page_by_tvl d.id d.active_tvl,
              (λ x n. page-after d x m n),
              rw (nonempty_test token nonempty, back) refl,
            ))

    module _ (positive : 0 < limit) where
      -- the rest of both theorems: the documents that a client gets are all, by falling TVL
      all_by_tvl :
          Ascending by_active_tvl (source.rows (λ d. true) by_active_tvl)
          × ((d : StatsDocument)
              → Memᴰ d (source.rows (λ d. true) by_active_tvl) ↔ Memᴰ d source.docs)
      unfolding by_active_tvl-StrictOrder
      all_by_tvl = (
        source.rows-Ascending (λ d. true) by_active_tvl-StrictOrder comparable,
        λ d.
            let mem = source.rows-mem (λ d. true) by_active_tvl-StrictOrder comparable d in
            ((λ m. (mem.0 m).0), (λ m. mem.1 (m, refl))),
      )

      -- A client that follows the tokens of the finality providers' statistics has in the end all
      -- of them, each once and those with the greatest active TVL first, with at most one page more than there
      -- are statistics, provided that no two have the same active TVL (the sort names no second
      -- key, although the filter of the later pages does), that the limit is positive, and that the
      -- collection can be read and is not changed meanwhile.
      pub find_finality_provider_stats-Complete :
          ⦃json : Json FinalityProviderStatsPagination⦄ (n : ℕ)
          → length (source.rows (λ d. true) by_active_tvl) < n
          → (read_all n (find_finality_provider_stats source limit)
              ≡ (ok tt, source.rows (λ d. true) by_active_tvl))
            × Ascending by_active_tvl (source.rows (λ d. true) by_active_tvl)
            × ((d : StatsDocument)
                → Memᴰ d (source.rows (λ d. true) by_active_tvl) ↔ Memᴰ d source.docs)
      unfolding read_all
      find_finality_provider_stats-Complete n enough =
          let (sorted, mem) = all_by_tvl in
          (
            for_pages-visits limit _ (find_finality_provider_stats source limit) _ collect positive
                  Serves-providers n enough []
                ∙ for_each-collect _ [],
            sorted,
            mem,
          )

      -- A client that follows the tokens of the stakers' statistics has in the end all of them, each
      -- once and those with the greatest active TVL first, with at most one page more than there are
      -- statistics, provided that no two have the same active TVL, that the limit is positive, and
      -- that the collection can be read and is not changed meanwhile.
      pub find_top_stakers_by_tvl-Complete :
          ⦃json : Json StakerStatsByStakerPagination⦄ (n : ℕ)
          → length (source.rows (λ d. true) by_active_tvl) < n
          → (read_all n (find_top_stakers_by_tvl source limit)
              ≡ (ok tt, source.rows (λ d. true) by_active_tvl))
            × Ascending by_active_tvl (source.rows (λ d. true) by_active_tvl)
            × ((d : StatsDocument)
                → Memᴰ d (source.rows (λ d. true) by_active_tvl) ↔ Memᴰ d source.docs)
      unfolding read_all
      find_top_stakers_by_tvl-Complete n enough =
          let (sorted, mem) = all_by_tvl in
          (
            for_pages-visits limit _ (find_top_stakers_by_tvl source limit) _ collect positive
                  Serves-stakers n enough []
                ∙ for_each-collect _ [],
            sorted,
            mem,
          )
