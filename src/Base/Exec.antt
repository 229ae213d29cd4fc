-- ===== src/Base/Exec.antt =====
-- Go functions that change a world and return `(A, error)`: what was done before an error stays
-- done, so the world comes back beside the error too.

pub data Result {ℓ} (E A : Type ℓ) : Type ℓ where
  ok : A → Result E A
  err : E → Result E A

abbrev pub Exec {ℓ} : Type ℓ → Type ℓ → Type ℓ → Type ℓ
Exec W E A = W → Result E A × W

module _ {ℓ} {W E A : Type ℓ} where
  unfoldable pub pure : A → Exec W E A
  pure a w = (ok a, w)

  unfoldable pub fail : E → Exec W E A
  fail e w = (err e, w)

  unfoldable pub lift : Result E A → Exec W E A
  lift r w = (r, w)

  unfoldable pub gets : (W → A) → Exec W E A
  gets f w = (ok (f w), w)

module _ {ℓ} {W E F A B : Type ℓ} where
  -- what follows a call, once it has returned
  abbrev pub resume : Result E A → (A → Exec W F B) → (E → Exec W F B) → Exec W F B
  resume (ok a) f g w = f a w
  resume (err e) f g w = g e w

  -- `a, err := m; if err != nil { g }; f`
  unfoldable pub try : Exec W E A → (E → Exec W F B) → (A → Exec W F B) → Exec W F B
  try m g f w = let (r, w') = m w in resume r f g w'

module _ {ℓ} {W E A B : Type ℓ} where
  infixl 5 ◌>>=◌ ◌>>◌
  -- `a, err := m; if err != nil { return err }; f`
  unfoldable pub ◌>>=◌ : Exec W E A → (A → Exec W E B) → Exec W E B
  unfolding try fail
  m >>= f = try m fail f

  abbrev pub ◌>>◌ : Exec W E A → Exec W E B → Exec W E B
  m >> n = m >>= λ _. n
