-- ===== src/Prelude/Radix/NoMark.antt =====
-- A printed number ends where the mark `_` in front of it stands.
use Prim.Native.Nat.{ℕ, zero, suc, ◌/◌, ◌%◌}
use Prim.Native.Char.{code}
use Prim.Native.String.{String, [], ◌∷◌, ◌++◌ as ◌<>◌}
use mathlib.Core.Path.{◌≡◌, refl, ap, sym, ◌∙◌}
use mathlib.Core.Logic.{inl, inr}
use mathlib.Core.Bool.{Bool, ◌&&◌, true, not}
use mathlib.Core.Option.{Option, none, some, some-injective}
use native.Mathlib.Omega.{arith}
use text.Mathlib.TextLemmas.{nil-append, cons-append}
use tracers.Prelude.Tests.{◌==◌, ltb, ltb→lt, Bool-cases, if◌then◌else◌}
use tracers.Prelude.Radix.{digit, put_digits, decimal, decimal_inj, checked, checked_at}

unfoldable pub has_no_mark : String → Bool
has_no_mark [] = true
has_no_mark (c ∷ s) = not (code c == 95) && has_no_mark s

digit_table : checked (λ d. not (code (digit d) == 95)) 16 ≡ true
unfolding checked digit
digit_table = refl

has_no_mark-put_digits :
    (fuel n : ℕ) (rest : String)
    → has_no_mark rest ≡ true
    → has_no_mark (put_digits 10 fuel n rest) ≡ true
unfolding put_digits has_no_mark
has_no_mark-put_digits zero n rest h = h
has_no_mark-put_digits (suc fuel) n rest h = elim (Bool-cases (ltb n 10)) [
  | inl small ↦
      let fact =
        checked_at (λ d. not (code (digit d) == 95)) 16 {d = n} (omega (arith, ltb→lt n 10 small))
          digit_table in
      rw (small, has_no_mark) (rw (fact, h) refl)
  | inr large ↦
      let fact =
        checked_at (λ d. not (code (digit d) == 95)) 16 {d = n % 10} (grind arith) digit_table in
      rw large (
        has_no_mark-put_digits fuel (n / 10) (digit (n % 10) ∷ rest)
          (rw (has_no_mark, fact, h) refl))
]

pub has_no_mark-decimal : (n : ℕ) → has_no_mark (decimal n) ≡ true
unfolding decimal has_no_mark
has_no_mark-decimal n = has_no_mark-put_digits (suc n) n [] refl

-- The text before and behind the last mark.
split_mark : String → Option (String × String)
split_mark [] = none
split_mark (c ∷ s) = elim (split_mark s) [
  | some (before, behind) ↦ some (c ∷ before, behind)
  | none ↦ if code c == 95 then some ([], s) else none
]

split_mark-none : (s : String) → has_no_mark s ≡ true → split_mark s ≡ none
unfolding split_mark has_no_mark
split_mark-none [] h = refl
split_mark-none (c ∷ s) h = ground (arith, split_mark-none s)

mark-append : (t : String) → "_" <> t ≡ "_" ∷ t
mark-append t = cons-append "_" "" t ∙ ap (λ (s : String). "_" ∷ s) (nil-append t)

split_mark-append : (s t : String) → has_no_mark t ≡ true → split_mark (s <> "_" <> t) ≡ some (s, t)
unfolding split_mark
split_mark-append [] t h = simp (nil-append, mark-append, split_mark-none t h)
split_mark-append (c ∷ s) t h =
    ap split_mark (cons-append c s ("_" <> t)) ∙ rw (split_mark-append s t h, split_mark)

-- A text and a number are determined by the text, a mark, and the number printed.
pub marked_inj :
    (s t : String) (m n : ℕ) → s <> "_" <> decimal m ≡ t <> "_" <> decimal n → (s ≡ t) × (m ≡ n)
marked_inj s t m n e =
    let parts =
      some-injective (s, decimal m) (t, decimal n)
        (sym (split_mark-append s (decimal m) (has_no_mark-decimal m))
          ∙ ap split_mark e
          ∙ split_mark-append t (decimal n) (has_no_mark-decimal n)) in
    (
      ap (λ (r : String × String). r.0) parts,
      decimal_inj m n (ap (λ (r : String × String). r.1) parts),
    )
