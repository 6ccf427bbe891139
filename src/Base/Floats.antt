-- ===== src/Base/Floats.antt =====
-- What the code does with a `float64`: the operations are a parameter, since the arithmetic is the
-- machine's. `ratio m n` is the constant that the source writes for m / n, or the quotient of two
-- integers that it turns into floats.
use Prim.Native.Nat.{ℕ, zero, suc, ◌*◌, ◌+◌, ◌-◌, ◌/◌, ◌^◌, ◌≤◌}
use mathlib.Core.Path.{◌≡◌, refl, ap}
use mathlib.Core.Bool.{◌&&◌, Bool, false}
use native.Mathlib.Omega.{arith}
use go_keylane.Base.Tests.{ltb, leb}
use go_keylane.Base.Ints.{ℤ, pos, to_nat}

pub record Float {ℓ} (W : Type ℓ) : Type ℓ where
  pub ratio : ℕ → ℕ → W
  pub lt : W → W → Bool
  pub le : W → W → Bool
  pub plus : W → W → W
  pub minus : W → W → W
  pub times : W → W → W
  pub pow : W → ℕ → W
  pub of_int : ℤ → W
  pub to_int : W → ℤ

-- `x == 0`
abbrev pub is_zero {ℓ} : {W : Type ℓ} ⦃f : Float W⦄ → W → Bool
is_zero ⦃f⦄ x = f.le x (f.ratio 0 1) && f.le (f.ratio 0 1) x

-- What is used of the machine's numbers: a constant above zero is not below it or zero, constants of
-- numbers up to 1000 compare as the fractions do, and an integer up to 2^53 is a float and comes
-- back as itself.
pub record IsExact {ℓ} (W : Type ℓ) ⦃f : Float W⦄ : Type ℓ where
  pub positive : (m n : ℕ) → f.le (f.ratio (suc m) (suc n)) (f.ratio 0 1) ≡ false
  pub lt-ratio :
      (m n k l : ℕ)
      → m ≤ 1000
      → suc n ≤ 1000
      → k ≤ 1000
      → suc l ≤ 1000
      → f.lt (f.ratio m (suc n)) (f.ratio k (suc l)) ≡ ltb (m * suc l) (k * suc n)
  pub to_int-of_int : (n : ℕ) → n ≤ 2 ^ 53 → f.to_int (f.of_int (pos n)) ≡ pos n

-- The laws can be met: fractions, a numerator and a denominator.
abbrev pub Fraction : Type 0
Fraction = ℕ × ℕ

abbrev power : Fraction → ℕ → Fraction
power x zero = (1, 1)
power x (suc n) = let y = power x n in (x.0 * y.0, x.1 * y.1)

instance abbrev pub fraction_float : Float Fraction
fraction_float = record {
  ratio = λ m n. (m, n);
  lt = λ x y. ltb (x.0 * y.1) (y.0 * x.1);
  le = λ x y. leb (x.0 * y.1) (y.0 * x.1);
  plus = λ x y. (x.0 * y.1 + y.0 * x.1, x.1 * y.1);
  minus = λ x y. (x.0 * y.1 - y.0 * x.1, x.1 * y.1);
  times = λ x y. (x.0 * y.0, x.1 * y.1);
  pow = power;
  of_int = λ a. (to_nat a, 1);
  to_int = λ x. pos (x.0 / x.1);
}

pub Fraction-IsExact : IsExact Fraction
Fraction-IsExact = record {
  positive = λ m n. ground arith;
  lt-ratio = λ m n k l a b c d. refl;
  to_int-of_int = λ n h. ap pos (omega arith);
}
