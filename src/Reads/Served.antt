-- ===== src/Reads/Served.antt =====
-- The pages of a filter and a sort are served when the filter of a later page keeps the documents
-- that come after the token's document.
use mathlib.Core.List.{Memᴰ}
use staking_api_service.Base.{
  ℕ, String, Bool, true, ◌≡◌, ◌≢◌, refl, sym, ◌∙◌, ap, subst, none, List, [], ◌∷◌, ◌++◌, ◌&&◌,
  arith,
}
use staking_api_service.Base.Exec.{Result, ok}
use staking_api_service.Types.Errors.{GoError}
use staking_api_service.Reads.{Source, DbResultMap, find, find_with_pagination}
use staking_api_service.Reads.Order.{
  StrictOrder, Comparable, Ascending, Ascending-unique, Ascending-rest, after-split, split-after,
}
use staking_api_service.Reads.Pages.{Serves, answer_for}

and-true : (a b : Bool) → (a && b) ≡ true → (a ≡ true) × (b ≡ true)
and-true a b h = ground (arith, h)

module _ {D : Type 0} (source : Source D) (filter : D → Bool) (o : StrictOrder D)
    (comparable : Comparable source.docs filter o) where
  -- a filter that keeps, of the stored documents, those that come after one
  abbrev pub After : D → (D → Bool) → Type 0
  After d q = (x : D) → Memᴰ x source.docs → q x ≡ (filter x && o.before d x)

  module _ (d : D) (q : D → Bool) (after : After d q) where
    passes : (x : D) → Memᴰ x source.docs → q x ≡ true → (filter x ≡ true) × (o.before d x ≡ true)
    passes x m h = and-true (filter x) (o.before d x) (sym (after x m) ∙ h)

    after-Comparable : Comparable source.docs q o
    after-Comparable a b m n h k = comparable a b m n (passes a m h).0 (passes b n k).0

    rows_after :
        (front rest : List D)
        → source.rows filter o.before ≡ front ++ (d ∷ rest)
        → source.rows q o.before ≡ rest
    rows_after front rest parts =
        Ascending-unique o (source.rows q o.before) rest
          (source.rows-Ascending q o after-Comparable) (Ascending-rest o front d rest whole)
          (λ z m.
            let (stored, h) = (source.rows-mem q o after-Comparable z).0 m in
            let (p, b) = passes z stored h in
            after-split o front d rest whole z
              (subst (Memᴰ z) parts ((source.rows-mem filter o comparable z).1 (stored, p))) b)
          (λ z m.
            let (n, b) = split-after o front d rest whole z m in
            let (stored, p) =
              (source.rows-mem filter o comparable z).0 (subst (Memᴰ z) (sym parts) n) in
            (source.rows-mem q o after-Comparable z).1
              (stored, after z stored ∙ ground (arith, p, b)))
      where
        whole : Ascending o.before (front ++ (d ∷ rest))
        whole = subst (Ascending o.before) parts (source.rows-Ascending filter o comparable)

  middle : (front rest : List D) (d : D) → Memᴰ d (front ++ (d ∷ rest))
  middle [] rest d = Memᴰ.head refl
  middle (x ∷ front) rest d = Memᴰ.tail (middle front rest d)

  module _ (limit : ℕ) (key : D → Result GoError String) (up : source.failure ≡ none) where
    read_rows :
        (q : D → Bool)
        → find_with_pagination source q o.before limit key
          ≡ answer_for limit key (source.rows q o.before)
    unfolding find_with_pagination find
    read_rows q = rw (up) refl

    pub Serves-source :
        (scan : String → Result GoError (DbResultMap D))
        → scan "" ≡ find_with_pagination source filter o.before limit key
        → ((d : D)
            → Memᴰ d source.docs
            → (token : String) × (key d ≡ ok token)
              × (token ≢ "")
              × (q : D → Bool) × After d q
              × (scan token ≡ find_with_pagination source q o.before limit key))
        → Serves limit key scan (source.rows filter o.before)
    Serves-source scan start next = record {
      first = start ∙ read_rows filter;
      next = λ front rest d parts.
          let stored =
            ((source.rows-mem filter o comparable d).0
              (subst (Memᴰ d) (sym parts) (middle front rest d))).0 in
          let (token, k, nonempty, q, after, answer) = next d stored in
          (
            token,
            k,
            nonempty,
            answer
                ∙ read_rows q
                ∙ ap (answer_for limit key) (rows_after d q after front rest parts),
          );
    }
