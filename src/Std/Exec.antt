-- ===== src/Std/Exec.antt =====
-- Code that reads and changes the world: the disk, and the lines written for Cargo. It returns, fails
-- with an error value, or panics.
pub mod Laws
use tracers.Prelude.{String, List, [], ◌∷◌, ◌++◌, Option, none, some, Result, ok, err, ◌≡◌, refl}
use tracers.Std.Disk.{Disk}

pub record World : Type 0 where
  pub disk : Disk
  pub out : List String

pub data Outcome {ℓ κ} (E : Type ℓ) (A : Type κ) : Type (ℓ ⊔ κ) where
  returns : A → World → Outcome E A
  fails : E → World → Outcome E A
  panics : String → World → Outcome E A

abbrev pub Exec {ℓ κ} : Type ℓ → Type κ → Type (ℓ ⊔ κ)
Exec E A = World → Outcome E A

module _ {ℓ κ μ} {E : Type ℓ} {A : Type κ} {B : Type μ} where
  abbrev pub continue : (A → Exec E B) → Outcome E A → Outcome E B
  continue f (returns a w) = f a w
  continue f (fails e w) = fails e w
  continue f (panics m w) = panics m w

  infixl 5 ◌>>=◌ ◌>>◌
  abbrev pub ◌>>=◌ : Exec E A → (A → Exec E B) → Exec E B
  ◌>>=◌ m f w = continue f (m w)

  abbrev pub ◌>>◌ : Exec E A → Exec E B → Exec E B
  ◌>>◌ m n w = continue (λ _. n) (m w)

module _ {ℓ κ} {E : Type ℓ} {A : Type κ} where
  abbrev pub pure : A → Exec E A
  pure a w = returns a w

  abbrev pub fail : E → Exec E A
  fail e w = fails e w

  abbrev pub panic : String → Exec E A
  panic m w = panics m w

  -- A pure result, under `?`.
  abbrev pub lift : Result E A → Exec E A
  lift (ok a) w = returns a w
  lift (err e) w = fails e w

  -- `option.expect(message)`
  abbrev pub expect : String → Option A → Exec E A
  expect m (some a) w = returns a w
  expect m none w = panics m w

module _ {ℓ κ μ} {D : Type ℓ} {E : Type κ} {A : Type μ} where
  -- `.map_err(f)`
  abbrev pub map_failure : (D → E) → Outcome D A → Outcome E A
  map_failure f (returns a w) = returns a w
  map_failure f (fails d w) = fails (f d) w
  map_failure f (panics m w) = panics m w

-- The world that is left.
abbrev pub after {ℓ κ} : {E : Type ℓ} {A : Type κ} → Outcome E A → World
after (returns a w) = w
after (fails e w) = w
after (panics m w) = w

-- `writeln!(out, …).unwrap()`
abbrev pub print {ℓ} : {E : Type ℓ} → String → Exec E (Unit {0})
print line w = returns tt (record w { out = w.out ++ line ∷ [] })

module _ {ℓ} {E : Type ℓ} {D : Type 0} (wrap : D → E) where
  abbrev pub report : World → Option D × Disk → Outcome E (Unit {0})
  report w (none, disk) = returns tt (record w { disk = disk })
  report w (some d, disk) = fails (wrap d) (record w { disk = disk })

  -- An operation on the disk that reports at most a failure.
  abbrev pub on_disk : (Disk → Option D × Disk) → Exec E (Unit {0})
  on_disk op w = report w (op w.disk)

-- Inversion of a bind that returned.
pub continue-eq-returns {ℓ κ μ} :
    {E : Type ℓ} {A : Type κ} {B : Type μ} (f : A → Exec E B) (m : Outcome E A) {b : B} {w : World}
    → continue f m ≡ returns b w
    → (a : A) × (v : World) × (m ≡ returns a v) × (f a v ≡ returns b w)
continue-eq-returns f (returns a v) h = (a, v, refl, h)
continue-eq-returns f (fails e v) h = cc
continue-eq-returns f (panics m v) h = cc
