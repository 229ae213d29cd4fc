-- ===== src/Tests/Collections.antt =====
-- A collection in memory, read with an insertion sort.
use mathlib.Core.List.{Memᴰ}
use staking_api_service.Base.{
  Bool, true, false, ◌≡◌, ◌↔◌, refl, sym, ◌∙◌, ap, subst, Option, none, some, List, [], ◌∷◌, ◌⊎◌,
  inl, inr, arith, if◌then◌else◌,
}
use staking_api_service.Driver.{or_else}
use staking_api_service.Reads.{Source}
use staking_api_service.Reads.Order.{StrictOrder, Comparable, Ascending}

module _ {D : Type 0} where
  abbrev pub insert : (D → D → Bool) → D → List D → List D
  insert sort x [] = x ∷ []
  insert sort x (y ∷ l) =
      let rest = insert sort x l in
      if sort x y then x ∷ y ∷ l else if sort y x then y ∷ rest else y ∷ l

  abbrev pub rows : (D → Bool) → (D → D → Bool) → List D → List D
  rows p sort [] = []
  rows p sort (x ∷ l) = let rest = rows p sort l in if p x then insert sort x rest else rest

  abbrev pub matching : (D → Bool) → List D → List D
  matching p [] = []
  matching p (x ∷ l) = let rest = matching p l in if p x then x ∷ rest else rest

  abbrev pub first : (D → Bool) → List D → Option D
  first p [] = none
  first p (x ∷ l) = let rest = first p l in if p x then some x else rest

  -- an element more, if a test says so
  mem-if :
      (b : Bool) (x d : D) (r : List D)
      → Memᴰ d (if b then x ∷ r else r)
      → ((d ≡ x) × (b ≡ true)) ⊎ Memᴰ d r
  mem-if true x d r (Memᴰ.head e) = inl (e, refl)
  mem-if true x d r (Memᴰ.tail m) = inr m
  mem-if false x d r m = inr m

  if-mem : (b : Bool) (x d : D) (r : List D) → Memᴰ d r → Memᴰ d (if b then x ∷ r else r)
  if-mem true x d r m = Memᴰ.tail m
  if-mem false x d r m = m

  pub matching-mem :
      (p : D → Bool) (l : List D) (d : D) → Memᴰ d (matching p l) ↔ (Memᴰ d l × (p d ≡ true))
  matching-mem p [] d = ((λ m. elim m [ ]), λ m. elim m.0 [ ])
  matching-mem p (x ∷ l) d = (into (matching-mem p l d).0, λ m. out (matching-mem p l d).1 m.0 m.1)
    where
      into :
          (Memᴰ d (matching p l) → Memᴰ d l × (p d ≡ true))
          → Memᴰ d (matching p (x ∷ l))
          → Memᴰ d (x ∷ l) × (p d ≡ true)
      into before m = elim (mem-if (p x) x d (matching p l) m) [
        | inl here ↦ (Memᴰ.head here.0, subst (λ y. p y ≡ true) (sym here.0) here.1)
        | inr n ↦ let (k, h) = before n in (Memᴰ.tail k, h)
      ]

      out :
          (Memᴰ d l × (p d ≡ true) → Memᴰ d (matching p l))
          → Memᴰ d (x ∷ l)
          → p d ≡ true
          → Memᴰ d (matching p (x ∷ l))
      out before (Memᴰ.head e) h = rw (subst (λ y. p y ≡ true) e h) (Memᴰ.head e)
      out before (Memᴰ.tail n) h = if-mem (p x) x d (matching p l) (before (n, h))

  first-if :
      (b : Bool) (x d : D) (o : Option D)
      → (if b then some x else o) ≡ some d
      → ((d ≡ x) × (b ≡ true)) ⊎ (o ≡ some d)
  first-if true x d o h = inl (sym (ap (λ q. or_else q x) h), refl)
  first-if false x d o h = inr h

  pub first-some :
      (p : D → Bool) (l : List D) (d : D) → first p l ≡ some d → Memᴰ d l × (p d ≡ true)
  first-some p [] d h = ground (arith, h)
  first-some p (x ∷ l) d h = elim (first-if (p x) x d (first p l) h) [
    | inl here ↦ (Memᴰ.head here.0, subst (λ y. p y ≡ true) (sym here.0) here.1)
    | inr k ↦ let (m, q) = first-some p l d k in (Memᴰ.tail m, q)
  ]

  none-if :
      (b : Bool) (x : D) (o : Option D)
      → (if b then some x else o) ≡ none
      → (b ≡ false) × (o ≡ none)
  none-if true x o h = ground (arith, h)
  none-if false x o h = (refl, h)

  pub first-none : (p : D → Bool) (l : List D) → first p l ≡ none → (d : D) → Memᴰ d l → p d ≡ false
  first-none p [] h d m = elim m [ ]
  first-none p (x ∷ l) h d (Memᴰ.head e) =
      subst (λ y. p y ≡ false) (sym e) (none-if (p x) x (first p l) h).0
  first-none p (x ∷ l) h d (Memᴰ.tail m) = first-none p l (none-if (p x) x (first p l) h).1 d m

  module _ (o : StrictOrder D) where
    insert-mem : (x z : D) (l : List D) → Memᴰ z (insert o.before x l) → (z ≡ x) ⊎ Memᴰ z l
    insert-mem x z [] (Memᴰ.head e) = inl e
    insert-mem x z [] (Memᴰ.tail m) = inr m
    insert-mem x z (y ∷ l) m = split (insert-mem x z l) (o.before x y) (o.before y x) m
      where
        under :
            (Memᴰ z (insert o.before x l) → (z ≡ x) ⊎ Memᴰ z l)
            → Memᴰ z (y ∷ insert o.before x l)
            → (z ≡ x) ⊎ Memᴰ z (y ∷ l)
        under before (Memᴰ.head e) = inr (Memᴰ.head e)
        under before (Memᴰ.tail n) = elim (before n) [ inl e ↦ inl e | inr k ↦ inr (Memᴰ.tail k) ]

        split :
            (Memᴰ z (insert o.before x l) → (z ≡ x) ⊎ Memᴰ z l)
            → (b c : Bool)
            → Memᴰ z (if b then x ∷ y ∷ l else if c then y ∷ insert o.before x l else y ∷ l)
            → (z ≡ x) ⊎ Memᴰ z (y ∷ l)
        split before true c (Memᴰ.head e) = inl e
        split before true c (Memᴰ.tail n) = inr n
        split before false true n = under before n
        split before false false n = inr n

    -- every element of a list is before, after or equal to `x`
    Beside : D → List D → Type 0
    Beside x l = (y : D) → Memᴰ y l → (x ≡ y) ⊎ (o.before x y ≡ true) ⊎ (o.before y x ≡ true)

    mem-insert :
        (x z : D) (l : List D) → Beside x l → (z ≡ x) ⊎ Memᴰ z l → Memᴰ z (insert o.before x l)
    unfolding Beside
    mem-insert x z [] beside (inl e) = Memᴰ.head e
    mem-insert x z [] beside (inr m) = Memᴰ.tail m
    mem-insert x z (y ∷ l) beside m =
        split (mem-insert x z l (λ w n. beside w (Memᴰ.tail n))) (o.before x y) refl (o.before y x)
          refl
      where
        deeper :
            ((z ≡ x) ⊎ Memᴰ z l → Memᴰ z (insert o.before x l)) → Memᴰ z (y ∷ insert o.before x l)
        deeper before = elim m [
          | inl e ↦ Memᴰ.tail (before (inl e))
          | inr (Memᴰ.head e) ↦ Memᴰ.head e
          | inr (Memᴰ.tail n) ↦ Memᴰ.tail (before (inr n))
        ]

        same : o.before x y ≡ false → o.before y x ≡ false → x ≡ y
        same h k = elim (beside y (Memᴰ.head refl)) [
          | inl e ↦ e
          | inr (inl q) ↦ ground (arith, h, q)
          | inr (inr q) ↦ ground (arith, k, q)
        ]

        front : Memᴰ z (x ∷ y ∷ l)
        front = elim m [ inl e ↦ Memᴰ.head e | inr n ↦ Memᴰ.tail n ]

        split :
            ((z ≡ x) ⊎ Memᴰ z l → Memᴰ z (insert o.before x l))
            → (b : Bool) → o.before x y ≡ b
            → (c : Bool) → o.before y x ≡ c
            → Memᴰ z (if b then x ∷ y ∷ l else if c then y ∷ insert o.before x l else y ∷ l)
        split before true h c k = front
        split before false h true k = deeper before
        split before false h false k = elim m [ inl e ↦ Memᴰ.head (e ∙ same h k) | inr n ↦ n ]

    insert-Ascending :
        (x : D) (l : List D) → Ascending o.before l → Ascending o.before (insert o.before x l)
    insert-Ascending x [] s = ((λ z m. elim m [ ]), tt)
    insert-Ascending x (y ∷ l) s =
        split (insert-Ascending x l s.1) (o.before x y) refl (o.before y x) refl
      where
        split :
            Ascending o.before (insert o.before x l)
            → (b : Bool) → o.before x y ≡ b
            → (c : Bool) → o.before y x ≡ c
            → Ascending o.before
                (if b then x ∷ y ∷ l else if c then y ∷ insert o.before x l else y ∷ l)
        split before true h c k = (
          (λ z m. elim m [
            | Memᴰ.head e ↦ subst (λ w. o.before x w ≡ true) (sym e) h
            | Memᴰ.tail n ↦ o.trans x y z h (s.0 z n)
          ]),
          s,
        )
        split before false h true k = (
          (λ z m. elim (insert-mem x z l m) [
            | inl e ↦ subst (λ w. o.before y w ≡ true) (sym e) k
            | inr n ↦ s.0 z n
          ]),
          before,
        )
        split before false h false k = s

    module _ (p : D → Bool) where
      pub rows-mem :
          (l : List D) (d : D)
          → Comparable l p o
          → Memᴰ d (rows p o.before l) ↔ (Memᴰ d l × (p d ≡ true))
      unfolding Beside
      rows-mem [] d c = ((λ m. elim m [ ]), λ m. elim m.0 [ ])
      rows-mem (x ∷ l) d c =
          split (p x) refl (λ y. rows-mem l y (λ a b m n. c a b (Memᴰ.tail m) (Memᴰ.tail n)))
        where
          beside :
              ((y : D) → Memᴰ y (rows p o.before l) ↔ (Memᴰ y l × (p y ≡ true)))
              → p x ≡ true
              → Beside x (rows p o.before l)
          beside before h y m =
              let (n, k) = (before y).0 m in c x y (Memᴰ.head refl) (Memᴰ.tail n) h k

          out : Memᴰ d (x ∷ l) → (d ≡ x) ⊎ Memᴰ d l
          out (Memᴰ.head e) = inl e
          out (Memᴰ.tail n) = inr n

          split :
              (b : Bool)
              → p x ≡ b
              → ((y : D) → Memᴰ y (rows p o.before l) ↔ (Memᴰ y l × (p y ≡ true)))
              → Memᴰ d (if b then insert o.before x (rows p o.before l) else rows p o.before l)
                ↔ (Memᴰ d (x ∷ l) × (p d ≡ true))
          split true h before = (
            (λ m. elim (insert-mem x d (rows p o.before l) m) [
              | inl e ↦ (Memᴰ.head e, subst (λ y. p y ≡ true) (sym e) h)
              | inr n ↦ let (k, q) = (before d).0 n in (Memᴰ.tail k, q)
            ]),
            λ m.
                mem-insert x d (rows p o.before l) (beside before h)
                  (elim (out m.0) [ inl e ↦ inl e | inr n ↦ inr ((before d).1 (n, m.1)) ]),
          )
          split false h before = (
            (λ m. let (k, q) = (before d).0 m in (Memᴰ.tail k, q)),
            λ m. elim (out m.0) [
              | inl e ↦ absurd (failed (subst (λ y. p y ≡ true) e m.1))
              | inr n ↦ (before d).1 (n, m.1)
            ],
          )
            where
              failed : p x ≡ true → ⊥
              failed k = ground (arith, h, k)

      pub rows-Ascending : (l : List D) → Ascending o.before (rows p o.before l)
      rows-Ascending [] = tt
      rows-Ascending (x ∷ l) = split (p x) (rows-Ascending l)
        where
          split :
              (b : Bool)
              → Ascending o.before (rows p o.before l)
              → Ascending o.before
                  (if b then insert o.before x (rows p o.before l) else rows p o.before l)
          split true s = insert-Ascending x (rows p o.before l) s
          split false s = s

abbrev pub stored : {D : Type 0} → List D → Source D
stored docs = record {
  docs = docs;
  failure = none;
  rows = λ p sort. rows p sort docs;
  rows-mem = λ p o c d. rows-mem o p docs d c;
  rows-Ascending = λ p o c. rows-Ascending o p docs;
  unsorted = λ p. matching p docs;
  unsorted-mem = λ p d. matching-mem p docs d;
  one = λ p. first p docs;
  one-some = λ p d. first-some p docs d;
  one-none = λ p. first-none p docs;
}
