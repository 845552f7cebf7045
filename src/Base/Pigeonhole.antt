-- ===== src/Base/Pigeonhole.antt =====
-- Numbers that are all different, and how many of them lie below a bound.
use Prim.Native.Nat.{ℕ, zero, suc, ◌≤◌, ◌<◌}
use mathlib.Core.Path.{◌≡◌, refl, ap, subst}
use mathlib.Core.Logic.{◌≢◌}
use mathlib.Core.List.{List, [], ◌∷◌}
use native.Mathlib.Decide.{ℕ_discrete}
use native.Mathlib.Omega.{arith}
use go_polymarket.Base.Lists.{length, All}

abbrev pub Distinct : List ℕ → Type 0
Distinct [] = Unit
Distinct (x ∷ xs) = All (λ y. y ≢ x) xs × Distinct xs

-- The numbers other than `n`.
without : ℕ → List ℕ → List ℕ
without n [] = []
without n (x ∷ xs) = elim (ℕ_discrete x n) [ yes e ↦ without n xs | no e ↦ x ∷ without n xs ]

without-All {κ} : (P : ℕ → Type κ) (n : ℕ) (xs : List ℕ) → All P xs → All P (without n xs)
unfolding without
without-All P n [] h = tt
without-All P n (x ∷ xs) h =
    elim (ℕ_discrete x n)
      as (λ d. All P (elim d [ yes e ↦ without n xs | no e ↦ x ∷ without n xs ])) [
        | yes e ↦ without-All P n xs h.1
        | no e ↦ (h.0, without-All P n xs h.1)
      ]

without-Distinct : (n : ℕ) (xs : List ℕ) → Distinct xs → Distinct (without n xs)
unfolding without
without-Distinct n [] h = tt
without-Distinct n (x ∷ xs) h =
    elim (ℕ_discrete x n)
      as (λ d. Distinct (elim d [ yes e ↦ without n xs | no e ↦ x ∷ without n xs ])) [
        | yes e ↦ without-Distinct n xs h.1
        | no e ↦ (without-All (λ y. y ≢ x) n xs h.0, without-Distinct n xs h.1)
      ]

length-without_absent :
    (n : ℕ) (xs : List ℕ) → All (λ y. y ≢ n) xs → length (without n xs) ≡ length xs
unfolding without
length-without_absent n [] h = refl
length-without_absent n (x ∷ xs) h =
    elim (ℕ_discrete x n)
      as (λ d.
        length (elim d [ yes e ↦ without n xs | no e ↦ x ∷ without n xs ]) ≡ suc (length xs)) [
          | yes e ↦ absurd (h.0 e)
          | no e ↦ ap suc (length-without_absent n xs h.1)
        ]

length-le-without : (n : ℕ) (xs : List ℕ) → Distinct xs → length xs ≤ suc (length (without n xs))
unfolding without
length-le-without n [] h = omega arith
length-le-without n (x ∷ xs) h =
    elim (ℕ_discrete x n)
      as (λ d.
        suc (length xs)
        ≤ suc (length (elim d [ yes e ↦ without n xs | no e ↦ x ∷ without n xs ]))) [
          | yes e ↦
              omega (arith, length-without_absent n xs (subst (λ m. All (λ y. y ≢ m) xs) e h.0))
          | no e ↦ omega (arith, length-le-without n xs h.1)
        ]

without-lt : (n : ℕ) (xs : List ℕ) → All (λ y. y < suc n) xs → All (λ y. y < n) (without n xs)
unfolding without
without-lt n [] h = tt
without-lt n (x ∷ xs) h =
    elim (ℕ_discrete x n)
      as (λ d. All (λ y. y < n) (elim d [ yes e ↦ without n xs | no e ↦ x ∷ without n xs ])) [
        | yes e ↦ without-lt n xs h.1
        | no e ↦ (omega (arith, h.0, e), without-lt n xs h.1)
      ]

-- Different numbers below `n` are `n` at most.
pub length-le_of_Distinct :
    (n : ℕ) (xs : List ℕ) → Distinct xs → All (λ y. y < n) xs → length xs ≤ n
length-le_of_Distinct zero [] d h = omega arith
length-le_of_Distinct zero (x ∷ xs) d h = absurd (omega (arith, h.0))
length-le_of_Distinct (suc n) xs d h =
    let rest =
      length-le_of_Distinct n (without n xs) (without-Distinct n xs d) (without-lt n xs h) in
    omega (arith, length-le-without n xs d, rest)
