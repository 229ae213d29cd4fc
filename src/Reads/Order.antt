-- ===== src/Reads/Order.antt =====
-- Lists in a strict order: they are determined by their elements, and an element's successors are the
-- greater ones.
use mathlib.Core.List.{Memᴰ}
use staking_api_service.Base.{
  Bool, true, false, ◌≡◌, refl, sym, ◌∙◌, subst, ◌⊎◌, List, [], ◌∷◌, ◌++◌, arith,
}

-- a strict order, as a test
pub record StrictOrder (A : Type 0) : Type 0 where
  pub before : A → A → Bool
  pub asymm : (a b : A) → before a b ≡ true → before b a ≡ false
  pub trans : (a b c : A) → before a b ≡ true → before b c ≡ true → before a c ≡ true

module _ {A : Type 0} where
  abbrev pub Ascending : (A → A → Bool) → List A → Type 0
  Ascending before [] = Unit {0}
  Ascending before (x ∷ xs) = ((y : A) → Memᴰ y xs → before x y ≡ true) × Ascending before xs

  -- every two of the elements that pass a test are ordered or equal
  abbrev pub Comparable : List A → (A → Bool) → StrictOrder A → Type 0
  Comparable l p o =
      (a b : A)
      → Memᴰ a l
      → Memᴰ b l
      → p a ≡ true
      → p b ≡ true
      → (a ≡ b) ⊎ (o.before a b ≡ true) ⊎ (o.before b a ≡ true)

module _ {A : Type 0} (o : StrictOrder A) where
  not_both : (a b : A) → o.before a b ≡ true → o.before b a ≡ true → ⊥
  not_both a b h k = ground (arith, o.asymm a b h, k)

  not_self : (a b : A) → a ≡ b → o.before a b ≡ true → ⊥
  not_self a b e h =
      not_both a b h
        (subst (λ x. o.before x a ≡ true) e (subst (λ x. o.before a x ≡ true) (sym e) h))

  heads :
      (x y : A) (xs ys : List A)
      → Ascending o.before (x ∷ xs)
      → Ascending o.before (y ∷ ys)
      → Memᴰ x (y ∷ ys)
      → Memᴰ y (x ∷ xs)
      → x ≡ y
  heads x y xs ys s t (Memᴰ.head e) m = e
  heads x y xs ys s t (Memᴰ.tail l) (Memᴰ.head e) = sym e
  heads x y xs ys s t (Memᴰ.tail l) (Memᴰ.tail m) = absurd (not_both y x (t.0 x l) (s.0 y m))

  -- membership of the tails, once the heads are equal
  tail_of :
      (x y z : A) (xs ys : List A)
      → Ascending o.before (x ∷ xs)
      → x ≡ y
      → Memᴰ z xs
      → Memᴰ z (y ∷ ys)
      → Memᴰ z ys
  tail_of x y z xs ys s e m (Memᴰ.head h) = absurd (not_self x z (e ∙ sym h) (s.0 z m))
  tail_of x y z xs ys s e m (Memᴰ.tail n) = n

  -- Two lists in the order with the same elements are equal.
  pub Ascending-unique :
      (xs ys : List A)
      → Ascending o.before xs
      → Ascending o.before ys
      → ((z : A) → Memᴰ z xs → Memᴰ z ys)
      → ((z : A) → Memᴰ z ys → Memᴰ z xs)
      → xs ≡ ys
  Ascending-unique [] [] s t f g = refl
  Ascending-unique [] (y ∷ ys) s t f g = elim (g y (Memᴰ.head refl)) [ ]
  Ascending-unique (x ∷ xs) [] s t f g = elim (f x (Memᴰ.head refl)) [ ]
  Ascending-unique (x ∷ xs) (y ∷ ys) s t f g =
      let e = heads x y xs ys s t (f x (Memᴰ.head refl)) (g y (Memᴰ.head refl)) in
      let rest =
        Ascending-unique xs ys s.1 t.1 (λ z m. tail_of x y z xs ys s e m (f z (Memᴰ.tail m)))
          (λ z m. tail_of y x z ys xs t (sym e) m (g z (Memᴰ.tail m))) in
      cc (e, rest)

  -- what follows an element are the elements after it in the order
  pub after-split :
      (front : List A) (d : A) (rest : List A)
      → Ascending o.before (front ++ (d ∷ rest))
      → (z : A) → Memᴰ z (front ++ (d ∷ rest))
      → o.before d z ≡ true
      → Memᴰ z rest
  after-split [] d rest s z (Memᴰ.head e) h = absurd (not_self d z (sym e) h)
  after-split [] d rest s z (Memᴰ.tail m) h = m
  after-split (x ∷ front) d rest s z (Memᴰ.head e) h =
      absurd (not_both d x (subst (λ y. o.before d y ≡ true) e h) (s.0 d (middle front)))
    where
      middle : (l : List A) → Memᴰ d (l ++ (d ∷ rest))
      middle [] = Memᴰ.head refl
      middle (y ∷ l) = Memᴰ.tail (middle l)
  after-split (x ∷ front) d rest s z (Memᴰ.tail m) h = after-split front d rest s.1 z m h

  pub split-after :
      (front : List A) (d : A) (rest : List A)
      → Ascending o.before (front ++ (d ∷ rest))
      → (z : A) → Memᴰ z rest
      → Memᴰ z (front ++ (d ∷ rest)) × (o.before d z ≡ true)
  split-after [] d rest s z m = (Memᴰ.tail m, s.0 z m)
  split-after (x ∷ front) d rest s z m =
      let (n, h) = split-after front d rest s.1 z m in (Memᴰ.tail n, h)

  pub Ascending-rest :
      (front : List A) (d : A) (rest : List A)
      → Ascending o.before (front ++ (d ∷ rest))
      → Ascending o.before rest
  Ascending-rest [] d rest s = s.1
  Ascending-rest (x ∷ front) d rest s = Ascending-rest front d rest s.1
