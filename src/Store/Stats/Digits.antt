-- ===== src/Store/Stats/Digits.antt =====
-- Different numbers are printed differently: a number can be read back from its digits.
use Prim.Native.Nat.{◌/◌}
use Prim.Native.Char.{code}
use Prim.Native.String.{[], ◌∷◌, ◌++◌}
use Prim.Native.String.append
use staking_api_service.Base.{
  ℕ, zero, suc, ◌+◌, ◌-◌, ◌*◌, ◌%◌, ◌<◌, ◌≤◌, String, false, ltb, ltb→lt, Bool-cases, inl, inr, ◌≡◌,
  sym, ◌∙◌, ap, arith,
}
use staking_api_service.Store.Stats.Sprint.{digit, sprint_fuel, sprint}

-- the number that digits continue
read : ℕ → String → ℕ
read acc [] = acc
read acc (c ∷ s) = read (10 * acc + (code c - 48)) s

read-append : (acc : ℕ) (s t : String) → read acc (s ++ t) ≡ read (read acc s) t
unfolding read
read-append acc [] t = ap (read acc) (append.nil t)
read-append acc (c ∷ s) t =
    ap (read acc) (append.cons c s t) ∙ read-append (10 * acc + (code c - 48)) s t

read-digit : (acc d : ℕ) → d < 10 → read acc (digit d) ≡ 10 * acc + d
unfolding read
read-digit acc zero h = omega arith
read-digit acc (suc zero) h = omega arith
read-digit acc (suc (suc zero)) h = omega arith
read-digit acc (suc (suc (suc zero))) h = omega arith
read-digit acc (suc (suc (suc (suc zero)))) h = omega arith
read-digit acc (suc (suc (suc (suc (suc zero))))) h = omega arith
read-digit acc (suc (suc (suc (suc (suc (suc zero)))))) h = omega arith
read-digit acc (suc (suc (suc (suc (suc (suc (suc zero))))))) h = omega arith
read-digit acc (suc (suc (suc (suc (suc (suc (suc (suc zero)))))))) h = omega arith
read-digit acc (suc (suc (suc (suc (suc (suc (suc (suc (suc zero))))))))) h = omega arith
read-digit acc (suc (suc (suc (suc (suc (suc (suc (suc (suc (suc d)))))))))) h = omega (arith, h)

read-sprint_fuel : (fuel n : ℕ) → n < fuel → read 0 (sprint_fuel fuel n) ≡ n
unfolding sprint_fuel
read-sprint_fuel zero n h = omega (arith, h)
read-sprint_fuel (suc fuel) n h = elim (Bool-cases (ltb n 10)) [
  | inl small ↦ rw (small) (read-digit 0 n (ltb→lt n 10 small) ∙ omega arith)
  | inr large ↦ rw (large) (
      read-append 0 (sprint_fuel fuel (n / 10)) (digit (n % 10))
      ∙ ap (λ x. read x (digit (n % 10)))
          (read-sprint_fuel fuel (n / 10) (omega (arith, h, ten n large)))
      ∙ read-digit (n / 10) (n % 10) (omega arith)
      ∙ omega arith)
]
  where
    ten : (n : ℕ) → ltb n 10 ≡ false → 10 ≤ n
    ten n large = ground (arith, large)

pub sprint-injective : (a b : ℕ) → sprint a ≡ sprint b → a ≡ b
unfolding sprint
sprint-injective a b h =
    sym (read-sprint_fuel (suc a) a (omega arith))
    ∙ ap (read 0) h
    ∙ read-sprint_fuel (suc b) b (omega arith)
