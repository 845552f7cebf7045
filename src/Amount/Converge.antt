-- ===== src/Amount/Converge.antt =====
-- How far `converge` moves an amount that is not negative.
use go_polymarket.Base.{
  ℕ, ◌+◌, ◌*◌, ◌^◌, ◌≤◌, ◌<◌, ◌≡◌, refl, arith, Bool-cases, inl, inr, leb, ltb,
}
use go_polymarket.Amount.{floor, ceil, decimal_places, converge}
use go_polymarket.Amount.Round.{frac, Resolves, round_modes}
use native.Mathlib.Nat.{
  pow-le-pow_right, mul-le-mul_right, mul-pos, mul-lt-mul_of_pos_right, lt_of_mul-lt-mul_right,
}

ten_pos : (n : ℕ) → 0 < 10 ^ n
ten_pos n = omega (arith, pow-le-pow_right {n = 10} (omega arith) {i = 0} {j = n} (omega arith))

-- `n / e` is at most `a / d` and a unit of `1 / t` more, and less than a unit of `1 / u` below it.
pub record IsNear (a d t u n e : ℕ) : Type 0 where
  pub pos_den : 0 < e
  pub above : n * d * t ≤ (a * t + d) * e
  pub below : a * u * e < (n * u + e) * d

IsNear-self : (a d t u : ℕ) → 0 < d → IsNear a d t u a d
IsNear-self a d t u h = record { pos_den = h; above = grind arith; below = grind arith }

-- `k` units of `1 / t`, from rounding up.
IsNear-up : (a d t u k : ℕ) → 0 < d → 0 < t → Resolves ceil (a * t) d k → IsNear a d t u k t
IsNear-up a d t u k h ht (lo, hi) = record {
  pos_den = ht;
  above = mul-le-mul_right t (omega (arith, hi));
  below = omega (arith, mul-le-mul_right u lo, mul-pos ht h);
}

IsNear-cut :
    (a d t u k j : ℕ)
    → 0 < d
    → 0 < t
    → 0 < u
    → Resolves ceil (a * t) d k
    → Resolves floor (k * u) t j
    → IsNear a d t u j u
IsNear-cut a d t u k j h ht hu (lo, hi) (lo', hi') = record {
  pos_den = hu;
  above = omega (
    arith,
    mul-le-mul_right d lo',
    mul-le-mul_right {m = k * d} {n = a * t + d} u (omega (arith, hi)),
  );
  below = omega (
    arith,
    mul-lt-mul_of_pos_right
        (lt_of_mul-lt-mul_right t {m = a * u} {n = (j + 1) * d}
          (omega (arith, mul-le-mul_right u lo, mul-lt-mul_of_pos_right hi' h)))
        hu,
  );
}

-- On an amount that is not negative `converge` goes up by at most one unit of 10^-(limit + 4), and
-- down by less than one unit of 10^-limit.
pub converge-IsNear :
    (a d limit : ℕ)
    → 0 < d
    → (n e : ℕ) × (converge (frac a d) limit ≡ frac n e)
      × IsNear a d (10 ^ (limit + 4)) (10 ^ limit) n e
unfolding converge
converge-IsNear a d limit h =
    let (k, up, near) = round_modes ceil a d (limit + 4) h in
    let (j, down, cut) = round_modes floor k (10 ^ (limit + 4)) limit (ten_pos (limit + 4)) in
    elim (Bool-cases (leb (decimal_places (frac a d) limit) limit)) [
      | inl few ↦ (a, d, rw few refl, IsNear-self a d _ _ h)
      | inr many ↦
          elim (Bool-cases (ltb limit (decimal_places (frac k (10 ^ (limit + 4))) limit))) [
            | inl over ↦ (
              j,
              10 ^ limit,
              rw (many, up, over) down,
              IsNear-cut a d _ _ k j h (ten_pos (limit + 4)) (ten_pos limit) near cut,
            )
            | inr fine ↦ (
              k,
              10 ^ (limit + 4),
              rw (many, up, fine) refl,
              IsNear-up a d _ _ k h (ten_pos (limit + 4)) near,
            )
          ]
    ]
