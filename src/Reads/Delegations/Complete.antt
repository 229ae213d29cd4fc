-- ===== src/Reads/Delegations/Complete.antt =====
-- Reading the delegations of a staker to the last page.
use mathlib.Core.List.{Memᴰ, append_assoc}
use staking_api_service.Base.{
  ℕ, ◌<◌, String, Bool, true, ◌==◌, ◌≡◌, ◌↔◌, refl, sym, ◌∙◌, ap, none, List, [], ◌∷◌, ◌++◌,
}
use staking_api_service.Base.Exec.{Result, ok, Exec, pure, ◌>>=◌, try}
use staking_api_service.Types.Errors.{GoError}
use staking_api_service.Model.{DelegationDocument}
use staking_api_service.Reads.{Source, Json, Base64, DbResultMap, length, for_each, for_pages}
use staking_api_service.Reads.Order.{Ascending}
use staking_api_service.Reads.Pages.{for_pages-visits}
use staking_api_service.Reads.Delegations.{
  DelegationByStakerPagination, by_start_height, find_delegations_by_staker_pk,
}
use staking_api_service.Reads.Delegations.Walks.{
  UniqueIds, Serves-by_staker, by_start_height-StrictOrder, by_start_height-Comparable,
}

module _ {D : Type 0} where
  -- a client that keeps what it reads, in order
  unfoldable pub collect : D → Exec (List D) GoError (Unit {0})
  collect d kept = (ok tt, kept ++ (d ∷ []))

  -- what a client has after the last page, if it reads `n` pages at most
  unfoldable pub read_all :
      ℕ → (String → Result GoError (DbResultMap D)) → Result GoError (Unit {0}) × List D
  read_all n list = for_pages n list collect "" []

  pub for_each-collect : (l kept : List D) → for_each l collect kept ≡ (ok tt, kept ++ l)
  unfolding for_each collect ◌>>=◌ try pure
  for_each-collect [] kept = λ i. (ok tt, sym (append_nil kept) i)
    where
      append_nil : (l : List D) → l ++ [] ≡ l
      append_nil [] = refl
      append_nil (x ∷ l) = ap (λ t. x ∷ t) (append_nil l)
  for_each-collect (d ∷ l) kept =
      for_each-collect l (kept ++ (d ∷ [])) ∙ (λ i. (ok tt, append_assoc kept (d ∷ []) l i))

module _ (source : Source DelegationDocument) (unique : UniqueIds source.docs) (limit : ℕ)
    (positive : 0 < limit) (up : source.failure ≡ none) ⦃base64 : Base64⦄
    ⦃by_staker : Json DelegationByStakerPagination⦄ (staker_pk : String) where
  -- A client that follows the tokens from the first page, without an extra filter, has in the end the
  -- delegations of the staker, each of them once and no other, those with the greatest start height
  -- first and in the order of the transaction hash among equal heights. It needs at most one page
  -- more than there are such delegations. The ids of the stored delegations are distinct, the limit
  -- is positive, reads succeed, and the collection is not changed meanwhile.
  pub find_delegations_by_staker_pk-Complete :
      (n : ℕ)
      → length (source.rows (λ d. d.staker_pk_hex == staker_pk) by_start_height) < n
      → (read_all n (find_delegations_by_staker_pk source limit staker_pk none)
          ≡ (ok tt, source.rows (λ d. d.staker_pk_hex == staker_pk) by_start_height))
        × Ascending by_start_height
            (source.rows (λ d. d.staker_pk_hex == staker_pk) by_start_height)
        × ((d : DelegationDocument)
            → Memᴰ d (source.rows (λ d. d.staker_pk_hex == staker_pk) by_start_height)
              ↔ (Memᴰ d source.docs × ((d.staker_pk_hex == staker_pk) ≡ true)))
  unfolding read_all
  find_delegations_by_staker_pk-Complete n enough =
      let filter : DelegationDocument → Bool = λ d. d.staker_pk_hex == staker_pk in
      let comparable = by_start_height-Comparable source.docs unique filter in
      (
        for_pages-visits limit _ (find_delegations_by_staker_pk source limit staker_pk none)
              (source.rows filter by_start_height) collect positive
              (Serves-by_staker source unique limit up staker_pk) n enough []
            ∙ for_each-collect (source.rows filter by_start_height) [],
        source.rows-Ascending filter by_start_height-StrictOrder comparable,
        source.rows-mem filter by_start_height-StrictOrder comparable,
      )
