-- ===== src/Base/Int.antt =====
-- Signed integers over the native numbers: `big.Int`, and `int64` where its range is not at stake.
use Prim.Native.Nat.{ℕ, zero, suc, ◌+◌, ◌-◌, ◌*◌, ◌/◌}
use mathlib.Core.Bool.{Bool, true, false}
use go_polymarket.Base.Tests.{ltb, leb, ◌==◌, if◌then◌else◌}

-- `negsuc n` is -(n + 1).
pub data ℤ : Type 0 where
  pos : ℕ → ℤ
  negsuc : ℕ → ℤ

-- The number `-n`.
abbrev pub neg_ℕ : ℕ → ℤ
neg_ℕ zero = pos 0
neg_ℕ (suc n) = negsuc n

-- `x.Sign() < 0`
abbrev pub is_neg : ℤ → Bool
is_neg (pos n) = false
is_neg (negsuc n) = true

-- `new(big.Int).Abs(x)`
abbrev pub abs : ℤ → ℕ
abs (pos n) = n
abs (negsuc n) = suc n

abbrev pub pos_part : ℤ → ℕ
pos_part (pos n) = n
pos_part (negsuc n) = 0

abbrev pub neg_part : ℤ → ℕ
neg_part (pos n) = 0
neg_part (negsuc n) = suc n

-- a - b, as an integer.
abbrev pub sub_ℕ : ℕ → ℕ → ℤ
sub_ℕ a b = if leb b a then pos (a - b) else negsuc (b - a - 1)

-- A product with a natural number, and with an integer.
abbrev pub scale_ℤ : ℤ → ℕ → ℤ
scale_ℤ (pos n) k = pos (n * k)
scale_ℤ (negsuc n) k = neg_ℕ (suc n * k)

infixl 70 ◌*ℤ◌
abbrev pub ◌*ℤ◌ : ℤ → ℤ → ℤ
a *ℤ pos n = scale_ℤ a n
pos m *ℤ negsuc n = neg_ℕ (m * suc n)
negsuc m *ℤ negsuc n = pos (suc m * suc n)

-- `x.Add(x, big.NewInt(1))`
abbrev pub inc_ℤ : ℤ → ℤ
inc_ℤ (pos n) = pos (n + 1)
inc_ℤ (negsuc n) = neg_ℕ n

-- `Quo` by a positive number: the quotient is cut towards zero.
abbrev pub quo_ℤ : ℤ → ℕ → ℤ
quo_ℤ (pos n) d = pos (n / d)
quo_ℤ (negsuc n) d = neg_ℕ (suc n / d)

-- `a < b`
abbrev pub ltb_ℤ : ℤ → ℤ → Bool
ltb_ℤ a b = ltb (pos_part a + neg_part b) (pos_part b + neg_part a)

-- `a == b`
abbrev pub eqb_ℤ : ℤ → ℤ → Bool
eqb_ℤ (pos m) (pos n) = m == n
eqb_ℤ (pos m) (negsuc n) = false
eqb_ℤ (negsuc m) (pos n) = false
eqb_ℤ (negsuc m) (negsuc n) = m == n
