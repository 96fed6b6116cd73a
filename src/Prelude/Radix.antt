-- ===== src/Prelude/Radix.antt =====
-- `{}` and `{:x}` of an unsigned integer: `format!` as the program uses it on numbers.
pub mod NoMark
use Prim.Native.Nat.{ℕ, zero, suc, ◌+◌, ◌*◌, ◌/◌, ◌%◌, ◌-◌, ◌<◌, ◌≤◌}
use Prim.Native.Char.{Char, code}
use Prim.Native.String.{String, [], ◌∷◌}
use mathlib.Core.Path.{◌≡◌, refl, ap, sym, ◌∙◌}
use mathlib.Core.Logic.{inl, inr, ◌⊎◌}
use mathlib.Core.Bool.{Bool, ◌&&◌, true, false}
use native.Mathlib.Omega.{arith}
use native.Mathlib.Nat.{div-add-mod'}
use tracers.Prelude.Tests.{◌==◌, ltb, ltb→lt, ltb→ge, Bool-cases, if◌then◌else◌}

unfoldable pub pick : ℕ → String → Char
pick n [] = "0"
pick zero (c ∷ s) = c
pick (suc n) (c ∷ s) = pick n s

unfoldable pub digit : ℕ → Char
unfolding pick
digit n = pick n "0123456789abcdef"

digit_value : Char → ℕ
digit_value c = if ltb (code c) 58 then code c - 48 else code c - 87

unfoldable pub checked : (ℕ → Bool) → ℕ → Bool
checked test zero = true
checked test (suc bound) = checked test bound && test bound

-- A test that came out true for the numbers under a bound is true of each.
pub checked_at :
    (test : ℕ → Bool) (bound : ℕ) {d : ℕ} → d < bound → checked test bound ≡ true → test d ≡ true
unfolding checked
checked_at test zero small all = absurd (omega arith)
checked_at test (suc bound) {d} small all =
    let earlier : d < bound → checked test bound ≡ true → test d ≡ true = checked_at test bound in
    ground (arith, earlier)

digit_table : checked (λ d. digit_value (digit d) == d) 16 ≡ true
unfolding checked digit digit_value
digit_table = refl

digit_value-digit : (d : ℕ) → d < 16 → digit_value (digit d) ≡ d
digit_value-digit d h =
    ground (arith, checked_at (λ d. digit_value (digit d) == d) 16 h digit_table)

-- The digits of `n` before `rest`, most significant first. Fuel above `n` suffices.
unfoldable pub put_digits : ℕ → ℕ → ℕ → String → String
put_digits base zero n rest = rest
put_digits base (suc fuel) n rest =
    let more = put_digits base fuel (n / base) (digit (n % base) ∷ rest) in
    if ltb n base then digit n ∷ rest else more

read : ℕ → ℕ → String → ℕ
read base acc [] = acc
read base acc (c ∷ s) = read base (acc * base + digit_value c) s

-- Reading the digits back gives the number, before whatever follows.
module _ (base : ℕ) (two_le : 2 ≤ base) (le_16 : base ≤ 16) where
  quotient-lt : (n fuel : ℕ) → base ≤ n → n < suc fuel → n / base < fuel
  quotient-lt n fuel h k = grind arith

  below_16 : (n : ℕ) → n % base < 16
  below_16 n = grind arith

  read-put_digits :
      (fuel n : ℕ) (rest : String)
      → n < fuel
      → read base 0 (put_digits base fuel n rest) ≡ read base n rest
  unfolding read put_digits
  read-put_digits zero n rest h = absurd (omega arith)
  read-put_digits (suc fuel) n rest h = elim (Bool-cases (ltb n base)) [
    | inl small ↦
        rw (small, read, digit_value-digit n (omega (arith, ltb→lt n base small)))
          (ap (λ (v : ℕ). read base v rest) (omega arith))
    | inr large ↦ rw (
      large,
      read-put_digits fuel (n / base) (digit (n % base) ∷ rest)
          (quotient-lt n fuel (ltb→ge n base large) h),
      read,
      digit_value-digit (n % base) (below_16 n),
      div-add-mod' n base,
    )
  ]

-- `format!("{}", n)`
unfoldable pub decimal : ℕ → String
unfolding put_digits digit
decimal n = put_digits 10 (suc n) n []

-- `format!("{:x}", n)`
unfoldable pub hex : ℕ → String
unfolding put_digits digit
hex n = put_digits 16 (suc n) n []

hex_example : hex 0xcafe_babe_dead_beef ≡ "cafebabedeadbeef"
unfolding hex
hex_example = refl

put_digits_inj :
    (base : ℕ)
    → 2 ≤ base
    → base ≤ 16
    → (m n : ℕ) → put_digits base (suc m) m [] ≡ put_digits base (suc n) n []
    → m ≡ n
unfolding read
put_digits_inj base h k m n e =
    sym (read-put_digits base h k (suc m) m [] (omega arith))
    ∙ ap (read base 0) e
    ∙ read-put_digits base h k (suc n) n [] (omega arith)

-- Numbers with the same printed form are equal.
pub decimal_inj : (m n : ℕ) → decimal m ≡ decimal n → m ≡ n
unfolding decimal
decimal_inj m n e = put_digits_inj 10 (omega arith) (omega arith) m n e

pub hex_inj : (m n : ℕ) → hex m ≡ hex n → m ≡ n
unfolding hex
hex_inj m n e = put_digits_inj 16 (omega arith) (omega arith) m n e
