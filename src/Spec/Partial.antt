-- ===== src/Spec/Partial.antt =====
-- A fallible result of code that could panic, or whose model could use up its fuel: `none`.
use tracers.Prelude.{Option, none, some, Result, ok, err}

abbrev pub Partial {ℓ κ} : Type ℓ → Type κ → Type (ℓ ⊔ κ)
Partial E A = Option (Result E A)

module _ {ℓ κ μ} {E : Type ℓ} {A : Type κ} {B : Type μ} where
  infixl 5 ◌>>=◌
  abbrev pub ◌>>=◌ : Partial E A → (A → Partial E B) → Partial E B
  some (ok a) >>= f = f a
  some (err e) >>= f = some (err e)
  none >>= f = none

module _ {ℓ κ} {E : Type ℓ} {A : Type κ} where
  abbrev pub pure : A → Partial E A
  pure a = some (ok a)

  abbrev pub fail : E → Partial E A
  fail e = some (err e)
