-- ===== src/Std/Exec/Laws.antt =====
-- What an operation on the disk leaves when it returns.
use mathlib.Core.Path.{subst}
use tracers.Prelude.{String, Option, none, some, ◌≡◌, ap, sym, ◌∙◌, inl, inr, Option-cases}
use tracers.Std.FilePath.{FilePath}
use tracers.Std.Disk.{Bytes, Os, file, write}
use tracers.Std.Disk.Laws.{put_self}
use tracers.Std.Exec.{World, Exec, Outcome, returns, fails, panics, on_disk, after, continue}
use tracers.Error.{Failure}

-- A write that returns reported no failure, and the file holds what was kept of it.
pub on_disk-write {ℓ} :
    {E : Type ℓ} (wrap : Failure → E) (os : Os) (p : FilePath) (bytes : Bytes) (w : World)
    {v : World}
    → on_disk wrap (λ disk. write os disk p bytes) w ≡ returns tt v
    → (os.stored p bytes ≡ (none, (os.stored p bytes).1))
      × (v.disk p ≡ some (file (os.stored p bytes).1))
unfolding write
on_disk-write {E} wrap os p bytes w {v} h = elim (Option-cases (os.stored p bytes).0) [
  | inr (e, failed) ↦ absurd (cc (rw failed at h))
  | inl fine ↦ (
    ap (λ (f : Option Failure). (f, (os.stored p bytes).1)) fine,
    sym (ap (λ (u : Outcome E (Unit {0})). (after u).disk p) (rw fine at h)) ∙ put_self p _ w.disk,
  )
]

-- A predicate on what is returned, where something is.
pub data OnReturn {ℓ κ} {E : Type ℓ} {A : Type κ} (P : A → Type 0)
    : Outcome E A → Type (ℓ ⊔ κ) where
  on_returns : (a : A) (w : World) → P a → OnReturn P (returns a w)
  on_fails : (e : E) (w : World) → OnReturn P (fails e w)
  on_panics : (m : String) (w : World) → OnReturn P (panics m w)

pub continue-OnReturn {ℓ κ μ} :
    {E : Type ℓ} {A : Type κ} {B : Type μ} (P : B → Type 0) (f : A → Exec E B) (m : Outcome E A)
    → ((a : A) (v : World) → OnReturn P (f a v))
    → OnReturn P (continue f m)
continue-OnReturn P f (returns a v) h = h a v
continue-OnReturn P f (fails e v) h = on_fails e v
continue-OnReturn P f (panics m v) h = on_panics m v

pub OnReturn-returns {ℓ κ} :
    {E : Type ℓ} {A : Type κ} (P : A → Type 0) (o : Outcome E A) {a : A} {w : World}
    → OnReturn P o
    → o ≡ returns a w
    → P a
OnReturn-returns P (returns b v) (on_returns _ _ holds) same = subst P (cc) holds
OnReturn-returns P (fails e v) h same = absurd (cc)
OnReturn-returns P (panics m v) h same = absurd (cc)
