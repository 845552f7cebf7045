-- ===== src/Amount/Round.antt =====
-- The three rounding modes, on what is not negative.
use go_polymarket.Base.{
  ℕ, ◌+◌, ◌*◌, ◌/◌, ◌%◌, ◌^◌, ◌≤◌, ◌<◌, ◌≡◌, ap, ◌∙◌, arith, Bool-cases, inl, inr, if◌then◌else◌,
  leb, ◌==◌,
}
use go_polymarket.Base.Int.{pos}
use go_polymarket.Base.Rat.{Rat}
use go_polymarket.Amount.{Mode, half_up, floor, ceil, round, rounds_up}
use native.Mathlib.Nat.{div-add-mod', mod-lt}

-- The fraction `a / d`.
abbrev pub frac : ℕ → ℕ → Rat
frac a d = record { num = pos a; den = d }

-- The integer that each mode takes for `s / d`.
unfoldable pub resolve : Mode → ℕ → ℕ → ℕ
resolve m s d = if rounds_up m (s % d) d then s / d + 1 else s / d

-- What each mode promises of the integer `k` that it takes for `s / d`.
abbrev pub Resolves : Mode → ℕ → ℕ → ℕ → Type 0
Resolves floor s d k = (k * d ≤ s) × (s < k * d + d)
Resolves ceil s d k = (s ≤ k * d) × (k * d < s + d)
Resolves half_up s d k = (2 * (k * d) ≤ 2 * s + d) × (2 * s < 2 * (k * d) + d)

resolve-Resolves : (m : Mode) (s d : ℕ) → 0 < d → Resolves m s d (resolve m s d)
unfolding resolve rounds_up
resolve-Resolves floor s d h = omega (arith, div-add-mod' s d, mod-lt s h)
resolve-Resolves ceil s d h = elim (Bool-cases (s % d == 0)) [
  | inl z ↦ rw z (ground (arith, div-add-mod' s d, mod-lt s h))
  | inr p ↦ rw p (ground (arith, div-add-mod' s d, mod-lt s h))
]
resolve-Resolves half_up s d h = elim (Bool-cases (leb d (s % d * 2))) [
  | inl up ↦ rw up (ground (arith, div-add-mod' s d, mod-lt s h))
  | inr down ↦ rw down (ground (arith, div-add-mod' s d, mod-lt s h))
]

round-frac :
    (m : Mode) (a d n : ℕ) → round (frac a d) n m ≡ frac (resolve m (a * 10 ^ n) d) (1 * 10 ^ n)
unfolding round resolve
round-frac m a d n = ground arith

-- Rounding a fraction that is not negative to `n` places gives a number of units of 10^-n: for
-- `floor` the largest that does not exceed it, for `ceil` the smallest that it does not exceed, and
-- for `half_up` the nearest, the larger of two that are as near.
pub round_modes :
    (m : Mode) (a d n : ℕ)
    → 0 < d
    → (k : ℕ) × (round (frac a d) n m ≡ frac k (10 ^ n)) × Resolves m (a * 10 ^ n) d k
round_modes m a d n h = (
  resolve m (a * 10 ^ n) d,
  round-frac m a d n
      ∙ ap (λ (t : ℕ). frac (resolve m (a * 10 ^ n) d) t) {x = 1 * 10 ^ n} (omega arith),
  resolve-Resolves m (a * 10 ^ n) d h,
)
