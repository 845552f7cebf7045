-- ===== src/Amount/Places.antt =====
-- How many decimal places a rational needs, of either sign.
use go_polymarket.Base.{
  ℕ, zero, suc, ◌+◌, ◌*◌, ◌/◌, ◌%◌, ◌^◌, ◌≤◌, ◌<◌, ◌≡◌, refl, ap, sym, ◌∙◌, Bool, true, not, ◌&&◌,
  arith, Bool-cases, inl, inr, leb, ltb, ◌↔◌, subst, ◌-◌, leb→le, ltb→le,
}
use go_polymarket.Base.Int.{ℤ, pos, negsuc, neg_ℕ, abs, pos_part, neg_part, scale_ℤ, quo_ℤ, ltb_ℤ}
use go_polymarket.Base.Rat.{Rat, eqb_rat}
use go_polymarket.Amount.{
  Mode, floor, ceil, round, rounds_up, round_down, round_up, places_from, decimal_places, converge,
}
use native.Mathlib.Nat.{
  div-add-mod', pow-suc, zero-div, mod-eq-zero_of_dvd, dvd-mul_right_of_dvd, dvd_of_mod-eq-zero,
  mul-mod_left, pow-le-pow_right,
}
use native.Mathlib.Numerals.{towards_suc}
use native.Mathlib.Decide.{ℕ_discrete}

-- A multiple of 10^-n.
abbrev pub FitsPlaces : Rat → ℕ → Type 0
FitsPlaces x n = abs x.num * 10 ^ n % x.den ≡ 0

pub pos_part-neg_ℕ : (n : ℕ) → pos_part (neg_ℕ n) ≡ 0
pos_part-neg_ℕ zero = refl
pos_part-neg_ℕ (suc n) = refl

pub neg_part-neg_ℕ : (n : ℕ) → neg_part (neg_ℕ n) ≡ n
neg_part-neg_ℕ zero = refl
neg_part-neg_ℕ (suc n) = refl

pub scale_ℤ-neg_ℕ : (n k : ℕ) → scale_ℤ (neg_ℕ n) k ≡ neg_ℕ (n * k)
scale_ℤ-neg_ℕ zero k =
    ap pos {x = 0 * k} {y = 0} (omega arith) ∙ ap neg_ℕ {x = 0} {y = 0 * k} (omega arith)
scale_ℤ-neg_ℕ (suc n) k = refl

pub quo_ℤ-neg_ℕ : (n d : ℕ) → quo_ℤ (neg_ℕ n) d ≡ neg_ℕ (n / d)
quo_ℤ-neg_ℕ zero d =
    ap pos {x = 0 / d} {y = 0} (zero-div d) ∙ ap neg_ℕ {x = 0} {y = 0 / d} (sym (zero-div d))
quo_ℤ-neg_ℕ (suc n) d = refl

-- `a == b` on integers, as `Cmp` decides it.
abbrev eqb_ℤ : ℤ → ℤ → Bool
eqb_ℤ a b = not (ltb_ℤ a b) && not (ltb_ℤ b a)

eqb_ℤ-neg_ℕ : (p q : ℕ) → (eqb_ℤ (neg_ℕ p) (neg_ℕ q) ≡ true) ↔ (p ≡ q)
eqb_ℤ-neg_ℕ zero zero = ground arith
eqb_ℤ-neg_ℕ zero (suc q) = ground arith
eqb_ℤ-neg_ℕ (suc p) zero = ground arith
eqb_ℤ-neg_ℕ (suc p) (suc q) = ground arith

eqb_ℤ-pos : (p q : ℕ) → (eqb_ℤ (pos p) (pos q) ≡ true) ↔ (p ≡ q)
eqb_ℤ-pos p q = ground arith

quotient_exact : (s d t : ℕ) → 0 < d → t ≡ s → ((s / d * d ≡ t) ↔ (s % d ≡ 0))
quotient_exact s d t h e =
    (λ p. omega (arith, div-add-mod' s d), λ p. omega (arith, div-add-mod' s d))

pub round_down_lem :
    (x : Rat) (n : ℕ)
    → round_down x n ≡ record { num = quo_ℤ (scale_ℤ x.num (10 ^ n)) x.den; den = 1 * 10 ^ n }
unfolding round rounds_up
round_down_lem x n = refl

-- A rational is its own rounding to `n` places exactly if it is a multiple of 10^-n.
pub eqb-round_down :
    (num : ℤ) (den n : ℕ)
    → 0 < den
    → (eqb_rat (round_down (record { num = num; den = den }) n) (record { num = num; den = den })
        ≡ true)
      ↔ FitsPlaces (record { num = num; den = den }) n
eqb-round_down (pos a) den n h =
    let e = quotient_exact (a * 10 ^ n) den (a * (1 * 10 ^ n)) h (omega arith) in
    let t = eqb_ℤ-pos (a * 10 ^ n / den * den) (a * (1 * 10 ^ n)) in
    rw round_down_lem (λ p. e.0 (t.0 p), λ p. t.1 (e.1 p))
eqb-round_down (negsuc a) den n h =
    let e = quotient_exact (suc a * 10 ^ n) den (suc a * (1 * 10 ^ n)) h (omega arith) in
    let t = eqb_ℤ-neg_ℕ (suc a * 10 ^ n / den * den) (suc a * (1 * 10 ^ n)) in
    rw (round_down_lem, quo_ℤ-neg_ℕ, scale_ℤ-neg_ℕ) (λ p. e.0 (t.0 p), λ p. t.1 (e.1 p))

ten_step : (n : ℕ) → 10 ^ (n + 1) ≡ 10 ^ n * 10
ten_step n = simp towards_suc (omega (arith, pow-suc 10 n))

-- More places hold what fewer hold.
FitsPlaces-suc : (x : Rat) (n : ℕ) → FitsPlaces x n → FitsPlaces x (n + 1)
FitsPlaces-suc x n h =
    let e : abs x.num * 10 ^ (n + 1) ≡ abs x.num * 10 ^ n * 10 =
      omega (arith, ap (λ (t : ℕ). abs x.num * t) (ten_step n)) in
    rw e (mod-eq-zero_of_dvd x.den (dvd-mul_right_of_dvd x.den (dvd_of_mod-eq-zero x.den h) 10))

pub FitsPlaces-mono : (x : Rat) (n k : ℕ) → FitsPlaces x n → FitsPlaces x (n + k)
FitsPlaces-mono x n zero h = subst (FitsPlaces x) {x = n} {y = n + 0} (omega arith) h
FitsPlaces-mono x n (suc k) h =
    subst (FitsPlaces x) {x = n + k + 1} {y = n + suc k} (omega arith)
      (FitsPlaces-suc x (n + k) (FitsPlaces-mono x n k h))

module _ (x : Rat) (h : 0 < x.den) where
  places_from_found :
      (n left : ℕ) → places_from x n left < n + left → FitsPlaces x (places_from x n left)
  unfolding places_from
  places_from_found n zero lt = absurd (omega arith)
  places_from_found n (suc left) lt = elim (Bool-cases (eqb_rat (round_down x n) x)) [
    | inl hit ↦ rw hit ((eqb-round_down x.num x.den n h).0 hit)
    | inr miss ↦
        rw miss (places_from_found (n + 1) left (omega (arith, rw (miss, places_from) at lt)))
  ]

  places_from_least :
      (n left k : ℕ) → FitsPlaces x k → n ≤ k → k < n + left → places_from x n left ≤ k
  unfolding places_from
  places_from_least n zero k fits le lt = absurd (omega arith)
  places_from_least n (suc left) k fits le lt = elim (Bool-cases (eqb_rat (round_down x n) x)) [
    | inl hit ↦ rw hit le
    | inr miss ↦ elim (ℕ_discrete n k) [
      | yes e ↦ cc (miss, (eqb-round_down x.num x.den n h).1 (subst (FitsPlaces x) (sym e) fits))
      | no e ↦ rw miss (places_from_least (n + 1) left k fits (omega arith) (omega arith))
    ]
  ]

  -- The count of places is within the limit exactly if the limit holds the rational.
  pub decimal_places-le : (limit : ℕ) → (decimal_places x limit ≤ limit) ↔ FitsPlaces x limit
  unfolding decimal_places
  decimal_places-le limit = (
    λ le.
        let k = places_from x 0 (limit + 1) in
        subst (FitsPlaces x) {x = k + (limit - k)} {y = limit} (omega arith)
          (FitsPlaces-mono x k (limit - k) (places_from_found 0 (limit + 1) (omega arith))),
    λ fits. places_from_least 0 (limit + 1) limit fits (omega arith) (omega arith),
  )

pub round-FitsPlaces : (x : Rat) (n : ℕ) (m : Mode) → FitsPlaces (round x n m) n
unfolding round
round-FitsPlaces x n m = let e : 1 * 10 ^ n ≡ 10 ^ n = omega arith in rw e (mul-mod_left _ (10 ^ n))

pub round-den : (x : Rat) (n : ℕ) (m : Mode) → 0 < (round x n m).den
unfolding round
round-den x n m =
    omega (arith, pow-le-pow_right {n = 10} (omega arith) {i = 0} {j = n} (omega arith))

-- What `converge` returns has at most the places that it is given, whatever the sign.
pub converge-FitsPlaces : (v : Rat) (limit : ℕ) → 0 < v.den → FitsPlaces (converge v limit) limit
unfolding converge
converge-FitsPlaces v limit h = elim (Bool-cases (leb (decimal_places v limit) limit)) [
  | inl few ↦ rw few ((decimal_places-le v h limit).0 (leb→le _ _ few))
  | inr many ↦
      let v' = round_up v (limit + 4) in
      elim (Bool-cases (ltb limit (decimal_places v' limit))) [
        | inl cut ↦ rw (many, cut) (round-FitsPlaces v' limit floor)
        | inr fine ↦
            rw (many, fine)
              ((decimal_places-le v' (round-den v (limit + 4) ceil) limit).0 (ltb→le _ _ fine))
      ]
]

pub converge-den : (v : Rat) (limit : ℕ) → 0 < v.den → 0 < (converge v limit).den
unfolding converge
converge-den v limit h = elim (Bool-cases (leb (decimal_places v limit) limit)) [
  | inl few ↦ rw few h
  | inr many ↦
      let v' = round_up v (limit + 4) in
      elim (Bool-cases (ltb limit (decimal_places v' limit))) [
        | inl cut ↦ rw (many, cut) (round-den v' limit floor)
        | inr fine ↦ rw (many, fine) (round-den v (limit + 4) ceil)
      ]
]
