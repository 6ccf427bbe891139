-- ===== src/Base/Ints.antt =====
-- Go's `int` and `time.Duration`, which may be below zero, and their sum in 64 bits.
use Prim.Native.Nat.{ℕ, ◌+◌, ◌-◌, ◌%◌, ◌^◌, suc}
use mathlib.Core.Bool.{Bool, true, false, not}
use go_keylane.Base.Tests.{ltb, if◌then◌else◌}

-- `negsuc n` is -(n + 1).
pub data ℤ : Type 0 where
  pos negsuc : ℕ → ℤ

abbrev pub int_ltb : ℤ → ℤ → Bool
int_ltb (pos a) (pos b) = ltb a b
int_ltb (pos a) (negsuc b) = false
int_ltb (negsuc a) (pos b) = true
int_ltb (negsuc a) (negsuc b) = ltb b a

abbrev pub int_leb : ℤ → ℤ → Bool
int_leb a b = not (int_ltb b a)

-- From 0 on; what is below is 0.
abbrev pub to_nat : ℤ → ℕ
to_nat (pos n) = n
to_nat (negsuc n) = 0

-- The 64-bit pattern `m` read as a signed number, and a number cut to its pattern.
abbrev signed : ℕ → ℤ
signed m = if ltb m (2 ^ 63) then pos m else negsuc (2 ^ 64 - 1 - m)

abbrev wrap : ℤ → ℤ
wrap (pos n) = signed (n % 2 ^ 64)
wrap (negsuc n) = signed (2 ^ 64 - 1 - n % 2 ^ 64)

-- `a - b` without a bound.
abbrev pub minus : ℕ → ℕ → ℤ
minus a b = if ltb a b then negsuc (b - a - 1) else pos (a - b)

abbrev exact_sum : ℤ → ℤ → ℤ
exact_sum (pos a) (pos b) = pos (a + b)
exact_sum (pos a) (negsuc b) = minus a (suc b)
exact_sum (negsuc a) (pos b) = minus b (suc a)
exact_sum (negsuc a) (negsuc b) = negsuc (suc (a + b))

infixl 30 ◌+ℤ◌
abbrev pub ◌+ℤ◌ : ℤ → ℤ → ℤ
a +ℤ b = wrap (exact_sum a b)
