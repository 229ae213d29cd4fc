-- ===== src/Store/Stats/Sprint.antt =====
-- `fmt.Sprint` of a number: its decimal digits.
use Prim.Native.Nat.{◌/◌}
use Prim.Native.String.{◌++◌}
use staking_api_service.Base.{ℕ, zero, suc, ◌%◌, String, ltb, if◌then◌else◌, ◌≡◌, refl}

abbrev pub digit : ℕ → String
digit zero = "0"
digit (suc zero) = "1"
digit (suc (suc zero)) = "2"
digit (suc (suc (suc zero))) = "3"
digit (suc (suc (suc (suc zero)))) = "4"
digit (suc (suc (suc (suc (suc zero))))) = "5"
digit (suc (suc (suc (suc (suc (suc zero)))))) = "6"
digit (suc (suc (suc (suc (suc (suc (suc zero))))))) = "7"
digit (suc (suc (suc (suc (suc (suc (suc (suc zero)))))))) = "8"
digit (suc (suc (suc (suc (suc (suc (suc (suc (suc n))))))))) = "9"

-- The fuel bounds the number of digits: `n` has at most `n + 1`.
unfoldable pub sprint_fuel : ℕ → ℕ → String
sprint_fuel zero n = ""
sprint_fuel (suc fuel) n =
    let front = sprint_fuel fuel (n / 10) ++ digit (n % 10) in if ltb n 10 then digit n else front

unfoldable pub sprint : ℕ → String
unfolding sprint_fuel
sprint n = sprint_fuel (suc n) n

sprint_test : sprint 1207 ≡ "1207"
unfolding sprint
sprint_test = refl
