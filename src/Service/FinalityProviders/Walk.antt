-- ===== src/Service/FinalityProviders/Walk.antt =====
-- All pages of `GetFinalityProviders`, one after the other.
use mathlib.Core.List.{Memᴰ, append_assoc}
use staking_api_service.Base.{
  ℕ, zero, suc, ◌<◌, String, true, false, ◌&&◌, ◌==◌, ◌≡◌, ◌≢◌, refl, sym, ◌∙◌, ap, subst, none,
  List, [], ◌∷◌, ◌++◌, map, ltb, ltb→lt, Bool-cases, inl, inr, arith,
}
use staking_api_service.Base.Exec.{Result, ok}
use staking_api_service.Types.Errors.{Error}
use staking_api_service.Model.{StatsDocument}
use staking_api_service.Reads.{Source, Json, Base64, length, find_unsorted}
use staking_api_service.Reads.Pages.{first_page, full_page, last_page as rest_page, answer_for}
use staking_api_service.Reads.Tokens.{nonempty_test}
use staking_api_service.Reads.Stats.{
  FinalityProviderStatsPagination, by_active_tvl, is_one_of, find_finality_provider_stats,
  find_finality_provider_stats_by_finality_provider_pk_hex,
  build_finality_provider_stats_pagination_token,
}
use staking_api_service.Reads.Stats.Walks.{
  DistinctTvl, Serves-providers, by_active_tvl-StrictOrder, comparable,
}
use staking_api_service.Service.Views.{Page}
use staking_api_service.Service.FinalityProviders.{
  FpDetailsPublic, FpParamsPublic, without_stats, with_stats, is_empty, fp_params_map, has_stats,
  not_in_use, find_registered_finality_providers_not_in_use, providers_page,
  build_fallback_fp_details_public,
}

-- The items of the pages from a token on, to a page without token.
pub data Walked {A : Type 0} (list : String → Result Error (Page A))
    : String → List A → Type 0 where
  ends : (token : String) (items : List A) → list token ≡ ok (items, "") → Walked list token items
  goes_on :
      (token next : String) (items rest : List A)
      → list token ≡ ok (items, next)
      → next ≢ ""
      → Walked list next rest
      → Walked list token (items ++ rest)

map-append : {A B : Type 0} (f : A → B) (a b : List A) → map f (a ++ b) ≡ map f a ++ map f b
map-append f [] b = refl
map-append f (x ∷ a) b = ap (λ l. f x ∷ l) (map-append f a b)

not_empty-append : {A : Type 0} (a b : List A) (x : A) → is_empty (a ++ (x ∷ b)) ≡ false
not_empty-append [] b x = refl
not_empty-append (y ∷ a) b x = refl

module _ (fp_params : List FpParamsPublic) where
  abbrev pub shown : StatsDocument → FpDetailsPublic
  shown d = with_stats d (fp_params_map fp_params d.id)

  module _ (source : Source StatsDocument) where
    -- the statistics of registered providers
    abbrev pub registered : List StatsDocument
    registered = source.unsorted (λ d. is_one_of (map (λ fp. fp.btc_pk) fp_params) d.id)

    abbrev pub unused : List FpDetailsPublic
    unused = not_in_use registered fp_params

module _ (source : Source StatsDocument) (distinct : DistinctTvl source.docs) (limit : ℕ)
    (positive : 0 < limit) (up : source.failure ≡ none) ⦃base64 : Base64⦄
    ⦃by_tvl : Json FinalityProviderStatsPagination⦄ (fp_params : List FpParamsPublic) where
  abbrev pub pages : String → Result Error (Page FpDetailsPublic)
  pages token =
      providers_page source fp_params token (find_finality_provider_stats source limit token)

  unused_found :
      find_registered_finality_providers_not_in_use source fp_params ≡ ok (unused fp_params source)
  unfolding find_registered_finality_providers_not_in_use
      find_finality_provider_stats_by_finality_provider_pk_hex find_unsorted
  unused_found = rw (up) refl

  from_page :
      (n : ℕ) (front rest : List StatsDocument) (token : String)
      → source.rows (λ d. true) by_active_tvl ≡ front ++ rest
      → find_finality_provider_stats source limit token
        ≡ answer_for limit build_finality_provider_stats_pagination_token rest
      → (is_empty rest && token == "") ≡ false
      → length rest < n
      → Walked pages token (map (shown fp_params) rest ++ unused fp_params source)
  unfolding providers_page
  from_page zero front rest token parts h more enough = absurd (omega (arith, enough))
  from_page (suc n) front rest token parts h more enough =
      elim (Bool-cases (ltb limit (length rest))) [
        | inr last ↦ ends token _ (
            rw
              (
                h
                    ∙ rest_page limit build_finality_provider_stats_pagination_token rest
                        (ground (arith, last)),
                more,
                unused_found,
              )
              refl)
        | inl full ↦
            let key = build_finality_provider_stats_pagination_token in
            let p = first_page limit rest positive (ltb→lt limit (length rest) full) in
            let page = p.front ++ (p.last ∷ []) in
            let split = append_assoc p.front (p.last ∷ []) p.rest in
            let before =
              parts
              ∙ ap (λ l. front ++ l) p.parts
              ∙ sym (append_assoc front p.front (p.last ∷ p.rest)) in
            let (next, k, nonempty, answer) =
              (Serves-providers source distinct limit up).next (front ++ p.front) p.rest p.last
                before in
            let after = before ∙ sym (append_assoc (front ++ p.front) (p.last ∷ []) p.rest) in
            let shape =
              sym (
                append_assoc (map (shown fp_params) page) (map (shown fp_params) p.rest)
                  (unused fp_params source))
              ∙ ap (λ l. l ++ unused fp_params source)
                  (sym (map-append (shown fp_params) page p.rest)
                    ∙ ap (map (shown fp_params)) (split ∙ sym p.parts)) in
            subst (Walked pages token) shape (
              goes_on token next (map (shown fp_params) page)
                (map (shown fp_params) p.rest ++ unused fp_params source)
                (rw
                  (
                    h ∙ full_page limit key rest p next k,
                    not_empty-append p.front [] p.last,
                    nonempty_test next nonempty,
                  )
                  refl)
                nonempty
                (from_page n ((front ++ p.front) ++ (p.last ∷ [])) p.rest next after answer
                  (ground (arith, nonempty_test next nonempty)) (omega (arith, enough, p.shorter))))
      ]

  -- without any statistics, the fallback is what is not in use
  nothing_stored : source.rows (λ d. true) by_active_tvl ≡ [] → registered fp_params source ≡ []
  unfolding by_active_tvl-StrictOrder
  nothing_stored h = no_member (registered fp_params source) (λ d m.
      let stored = ((source.unsorted-mem _ d).0 m).0 in
      let row =
        (source.rows-mem (λ d. true) by_active_tvl-StrictOrder (comparable source distinct) d).1
          (stored, refl) in
      elim (subst (Memᴰ d) h row) [ ])
    where
      no_member : (l : List StatsDocument) → ((d : StatsDocument) → Memᴰ d l → ⊥) → l ≡ []
      no_member [] f = refl
      no_member (x ∷ l) f = absurd (f x (Memᴰ.head refl))

  fallback : (l : List FpParamsPublic) → not_in_use [] l ≡ build_fallback_fp_details_public l
  unfolding not_in_use has_stats build_fallback_fp_details_public
  fallback [] = refl
  fallback (fp ∷ l) = ap (λ t. without_stats fp ∷ t) (fallback l)

  pub from_start :
      Walked pages ""
        (map (shown fp_params) (source.rows (λ d. true) by_active_tvl) ++ unused fp_params source)
  unfolding providers_page
  from_start = split (source.rows (λ d. true) by_active_tvl) refl
    where
      split :
          (rows : List StatsDocument)
          → source.rows (λ d. true) by_active_tvl ≡ rows
          → Walked pages "" (map (shown fp_params) rows ++ unused fp_params source)
      split [] h = ends "" (unused fp_params source) (
          rw
            ((Serves-providers source distinct limit up).first
              ∙ ap (answer_for limit _) h
              ∙ rest_page limit _ [] (omega arith))
            (ap (λ l. ok (l, ""))
              (sym (fallback fp_params)
                ∙ ap (λ r. not_in_use r fp_params) (sym (nothing_stored h)))))
      split (d ∷ rows) h =
          from_page (suc (length (d ∷ rows))) [] (d ∷ rows) "" h
            ((Serves-providers source distinct limit up).first ∙ ap (answer_for limit _) h) refl
            (omega arith)
