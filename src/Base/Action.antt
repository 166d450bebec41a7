-- ===== src/Base/Action.antt =====
-- Go functions with effects: an action takes a state of the world and returns a result and the state
-- that it leaves, on an error too.
use wonderwall.Base.Results.{Error, Result, ok, err}

abbrev pub Action {ℓ} : Type ℓ → Type ℓ → Type ℓ
Action W A = W → Result A × W

module _ {ℓ} {W A : Type ℓ} where
  abbrev pub pure : A → Action W A
  pure a w = (ok a, w)

  abbrev pub raise : Error → Action W A
  raise e w = (err e, w)

  abbrev pub lift : Result A → Action W A
  lift r w = (r, w)

  -- `x, err := m`, where the code goes on to inspect `err`.
  abbrev pub catch : Action W A → Action W (Result A)
  catch m w = let (r, w') = m w in (ok r, w')

  -- An action that cannot fail.
  abbrev pub always : (W → A × W) → Action W A
  always m w = let (a, w') = m w in (ok a, w')

module _ {ℓ} {W A B : Type ℓ} where
  abbrev pub continue : Result A → (A → Action W B) → Action W B
  continue (ok a) f w = f a w
  continue (err e) f w = (err e, w)

  infixl 5 ◌>>=◌ ◌>>◌
  abbrev pub ◌>>=◌ : Action W A → (A → Action W B) → Action W B
  ◌>>=◌ m f w = let (r, w') = m w in continue r f w'

  abbrev pub ◌>>◌ : Action W A → Action W B → Action W B
  m >> n = m >>= λ _. n
