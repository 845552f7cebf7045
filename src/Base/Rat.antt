-- ===== src/Base/Rat.antt =====
-- `big.Rat`: a fraction of an integer by a positive number. Go keeps it in lowest terms; the code
-- reads `Num` and `Denom` only to take a quotient, to see whether the remainder is zero and to
-- compare twice the remainder with the denominator, which do not change with the terms. Comparisons
-- multiply crosswise.
use Prim.Native.Nat.{ℕ, ◌+◌, ◌*◌}
use mathlib.Core.Bool.{Bool, not, ◌&&◌}
use go_polymarket.Base.Tests.{◌==◌, if◌then◌else◌}
use go_polymarket.Base.Int.{ℤ, negsuc, is_neg, abs, pos_part, neg_part, sub_ℕ, scale_ℤ, ◌*ℤ◌, ltb_ℤ}

pub record Rat : Type 0 where
  pub num : ℤ
  pub den : ℕ

-- `new(big.Rat).SetInt(n)`
abbrev pub of_ℤ : ℤ → Rat
of_ℤ n = record { num = n; den = 1 }

abbrev pub mul_rat : Rat → Rat → Rat
mul_rat x y = record { num = x.num *ℤ y.num; den = x.den * y.den }

-- `Quo` by a positive number.
abbrev pub div_ℕ : Rat → ℕ → Rat
div_ℕ x k = record { num = x.num; den = x.den * k }

-- `Quo(x, y)` for a `y` that is not zero: the sign of `y` goes to the numerator.
abbrev pub quo_rat : Rat → Rat → Rat
quo_rat x y =
    let n = scale_ℤ x.num y.den in
    record { num = if is_neg y.num then n *ℤ negsuc 0 else n; den = x.den * abs y.num }

-- `x + y`
abbrev pub add_rat : Rat → Rat → Rat
add_rat x y =
    let a = scale_ℤ x.num y.den in
    let b = scale_ℤ y.num x.den in
    record { num = sub_ℕ (pos_part a + pos_part b) (neg_part a + neg_part b); den = x.den * y.den }

-- `x - y`
abbrev pub sub_rat : Rat → Rat → Rat
sub_rat x y =
    let a = scale_ℤ x.num y.den in
    let b = scale_ℤ y.num x.den in
    record { num = sub_ℕ (pos_part a + neg_part b) (neg_part a + pos_part b); den = x.den * y.den }

-- `x.Cmp(y) < 0`
abbrev pub ltb_rat : Rat → Rat → Bool
ltb_rat x y = ltb_ℤ (scale_ℤ x.num y.den) (scale_ℤ y.num x.den)

-- `x.Cmp(y) == 0`
abbrev pub eqb_rat : Rat → Rat → Bool
eqb_rat x y = not (ltb_rat x y) && not (ltb_rat y x)

-- `x.Sign() == 0`
abbrev pub is_zero_rat : Rat → Bool
is_zero_rat x = abs x.num == 0
