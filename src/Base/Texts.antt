-- ===== src/Base/Texts.antt =====
-- The order of texts, as BSON sorts strings.
use Prim.Native.Nat.{ℕ, Ordering, compare as compare_ℕ}
use Prim.Native.Char.{code}
use Prim.Native.String.compare
use Prim.Native.String.{String, [], ◌∷◌, compare, then}
use mathlib.Core.Path.{◌≡◌, refl, sym, ◌∙◌, ap}
use mathlib.Core.Bool.{Bool, true, false}
use mathlib.Core.Logic.{◌⊎◌, inl, inr}
use native.Mathlib.Omega.{arith}
use text.Mathlib.Text.{is_lt}
use text.Mathlib.TextEquality.{path_by_compare}

abbrev pub text_ltb : String → String → Bool
text_ltb s t = is_lt (compare s t)

flip : Ordering → Ordering
flip Ordering.lt = Ordering.gt
flip Ordering.eq = Ordering.eq
flip Ordering.gt = Ordering.lt

flip-then : (o r : Ordering) → flip (then o r) ≡ then (flip o) (flip r)
unfolding flip
flip-then Ordering.lt r = refl
flip-then Ordering.eq r = refl
flip-then Ordering.gt r = refl

numbers-flip : (a b : ℕ) → compare_ℕ a b ≡ flip (compare_ℕ b a)
unfolding flip
numbers-flip a b = ground arith

compare-flip : (s t : String) → compare s t ≡ flip (compare t s)
unfolding flip
compare-flip [] [] = refl
compare-flip [] (d ∷ t) = rw (compare.nil-cons d t, compare.cons-nil d t) refl
compare-flip (c ∷ s) [] = rw (compare.nil-cons c s, compare.cons-nil c s) refl
compare-flip (c ∷ s) (d ∷ t) = cc (
  compare.cons-cons c d s t,
  compare.cons-cons d c t s,
  flip-then (compare_ℕ (code d) (code c)) (compare t s),
  numbers-flip (code c) (code d),
  compare-flip s t,
)

-- one place of two texts, and the rest
then-chain :
    (x y z : ℕ) (r s t : Ordering)
    → then (compare_ℕ x y) r ≡ Ordering.lt
    → then (compare_ℕ y z) s ≡ Ordering.lt
    → (r ≡ Ordering.lt → s ≡ Ordering.lt → t ≡ Ordering.lt)
    → then (compare_ℕ x z) t ≡ Ordering.lt
then-chain x y z r s t h k next = ground arith

compare-lt_trans :
    (s t u : String)
    → compare s t ≡ Ordering.lt
    → compare t u ≡ Ordering.lt
    → compare s u ≡ Ordering.lt
compare-lt_trans [] [] u h k = k
compare-lt_trans [] (d ∷ t) [] h k = cc (compare.cons-nil d t, k)
compare-lt_trans [] (d ∷ t) (e ∷ u) h k = compare.nil-cons e u
compare-lt_trans (c ∷ s) [] u h k = cc (compare.cons-nil c s, h)
compare-lt_trans (c ∷ s) (d ∷ t) [] h k = cc (compare.cons-nil d t, k)
compare-lt_trans (c ∷ s) (d ∷ t) (e ∷ u) h k =
    compare.cons-cons c e s u
    ∙ then-chain (code c) (code d) (code e) (compare s t) (compare t u) (compare s u)
        (sym (compare.cons-cons c d s t) ∙ h) (sym (compare.cons-cons d e t u) ∙ k)
        (compare-lt_trans s t u)

is_lt-true : (o : Ordering) → is_lt o ≡ true → o ≡ Ordering.lt
is_lt-true Ordering.lt h = refl
is_lt-true Ordering.eq h = ground (arith, h)
is_lt-true Ordering.gt h = ground (arith, h)

pub text_ltb-asymm : (s t : String) → text_ltb s t ≡ true → text_ltb t s ≡ false
unfolding flip
text_ltb-asymm s t h = ap is_lt (compare-flip t s ∙ ap flip (is_lt-true (compare s t) h))

pub text_ltb_trans :
    (s t u : String) → text_ltb s t ≡ true → text_ltb t u ≡ true → text_ltb s u ≡ true
text_ltb_trans s t u h k =
    ap is_lt (compare-lt_trans s t u (is_lt-true (compare s t) h) (is_lt-true (compare t u) k))

pub text_ltb-total : (s t : String) → (s ≡ t) ⊎ (text_ltb s t ≡ true) ⊎ (text_ltb t s ≡ true)
unfolding flip
text_ltb-total s t = split (compare s t) refl
  where
    split :
        (o : Ordering) → compare s t ≡ o → (s ≡ t) ⊎ (text_ltb s t ≡ true) ⊎ (text_ltb t s ≡ true)
    split Ordering.lt h = inr (inl (ap is_lt h))
    split Ordering.eq h = inl (path_by_compare s t h)
    split Ordering.gt h = inr (inr (ap is_lt (compare-flip t s ∙ ap flip h)))
