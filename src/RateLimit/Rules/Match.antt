-- ===== src/RateLimit/Rules/Match.antt =====
-- `match` against what its comment promises: the longest matching prefix wins, and a rule that names
-- a method beats one that does not.
use go_polymarket.Base.{
  ℕ, suc, ◌+◌, ◌≤◌, ◌<◌, ◌≡◌, refl, sym, ap, ◌∙◌, subst, true, false, some, List, [], ◌∷◌, arith,
  ltb, Bool-cases, ltb→lt, ltb→le, inl, inr, length, get_elem?, ◌⊎◌, get_elem?-lt, All-of_get_elem?,
  All, Bool,
}
use go_polymarket.Base.Bytes.{Bytes, is_empty}
use go_polymarket.Base.Int.{pos}
use mathlib.Core.Option.{some-injective}
use native.Mathlib.Decide.{ℕ_discrete}
use go_polymarket.RateLimit.Rules.{Rule, applies, score, Best, consider, match_loop, match, no_best}

module _ (method path : Bytes) (rules : List Rule) where
  abbrev IsCandidate : Rule → Type 0
  IsCandidate r = applies method path r ≡ true

  -- No rule before index `i` applies.
  abbrev NoneBefore : ℕ → Type 0
  NoneBefore i =
      (j : ℕ) (s : Rule) → j < i → get_elem? rules j ≡ some s → applies method path s ≡ false

  -- Of the rules before index `i`, the first that scores highest is `r`, at `best`.
  abbrev IsBestBefore : ℕ → ℕ → Rule → Type 0
  IsBestBefore i best r =
      (get_elem? rules best ≡ some r)
      × (applies method path r ≡ true)
      × ((j : ℕ) (s : Rule)
          → j < i
          → get_elem? rules j ≡ some s
          → applies method path s ≡ true
          → (score s ≤ score r) × (j < best → score s < score r))

  -- What the loop knows when it comes to index `i`.
  abbrev Seen : ℕ → Best → Type 0
  Seen i b =
      ((b ≡ no_best) × NoneBefore i)
      ⊎ ((r : Rule) × (best : ℕ) × (b
            ≡ record { best = best; best_len = pos (score r); found = true })
          × (best < i)
          × IsBestBefore i best r)

  module _ (i : ℕ) (r : Rule) (at : get_elem? rules i ≡ some r) where
    -- At index `j` below `i + 1` stands `r`, or `j` is below `i`.
    last_or_before :
        (j : ℕ) (s : Rule) → j < i + 1 → get_elem? rules j ≡ some s → (j < i) ⊎ ((j ≡ i) × (s ≡ r))
    last_or_before j s lt e = elim (ℕ_discrete j i) [
      | yes same ↦ inr (same, some-injective s r (sym e ∙ ap (get_elem? rules) same ∙ at))
      | no other ↦ inl (omega (arith, lt, other))
    ]

    consider-none : NoneBefore i → applies method path r ≡ false → NoneBefore (i + 1)
    consider-none none_before not_r j s lt e = elim (last_or_before j s lt e) [
      | inl before ↦ none_before j s before e
      | inr (_, same) ↦ rw same not_r
    ]

    consider-first : NoneBefore i → applies method path r ≡ true → IsBestBefore (i + 1) i r
    consider-first none_before is_r = (
      at,
      is_r,
      λ j s lt e applies_s. elim (last_or_before j s lt e) [
        | inl before ↦ cc (none_before j s before e)
        | inr (same_j, same) ↦ (rw same (omega arith), λ less. absurd (omega (arith, less, same_j)))
      ],
    )

    consider-keep :
        (best : ℕ) (r₀ : Rule)
        → IsBestBefore i best r₀
        → best < i
        → (applies method path r ≡ true → score r ≤ score r₀)
        → IsBestBefore (i + 1) best r₀
    consider-keep best r₀ (at₀, is₀, top) below low = (
      at₀,
      is₀,
      λ j s lt e applies_s. elim (last_or_before j s lt e) [
        | inl before ↦ top j s before e applies_s
        | inr (same_j, same) ↦ (
          rw same (low (rw same at applies_s)),
          λ less. absurd (omega (arith, less, same_j, below)),
        )
      ],
    )

    consider-better :
        (best : ℕ) (r₀ : Rule)
        → IsBestBefore i best r₀
        → applies method path r ≡ true
        → score r₀ < score r
        → IsBestBefore (i + 1) i r
    consider-better best r₀ (at₀, is₀, top) is_r more = (
      at,
      is_r,
      λ j s lt e applies_s. elim (last_or_before j s lt e) [
        | inl before ↦ (
          omega (arith, top j s before e applies_s, more),
          λ _. omega (arith, top j s before e applies_s, more),
        )
        | inr (same_j, same) ↦ (rw same (omega arith), λ less. absurd (omega (arith, less, same_j)))
      ],
    )

    consider-Seen : (b : Best) → Seen i b → Seen (i + 1) (consider method path i r b)
    unfolding consider
    consider-Seen b seen = elim (Bool-cases (applies method path r)) [
      | inr no_r ↦ elim seen [
        | inl (start, none_before) ↦ rw no_r (inl (start, consider-none none_before no_r))
        | inr (r₀, best, e, below, top) ↦
            rw no_r (inr (r₀, best, e, omega arith, consider-keep best r₀ top below (λ is_r. cc)))
      ]
      | inl is_r ↦ elim seen [
        | inl (start, none_before) ↦
            rw (is_r, start)
              (inr (r, i, ground arith, omega arith, consider-first none_before is_r))
        | inr (r₀, best, e, below, top) ↦ elim (Bool-cases (ltb (score r₀) (score r))) [
          | inl more ↦
              rw (is_r, e)
                (inr (
                  r,
                  i,
                  ground arith,
                  omega arith,
                  consider-better best r₀ top is_r (ltb→lt _ _ more),
                ))
          | inr less ↦
              rw (is_r, e)
                (inr (
                  r₀,
                  best,
                  ground arith,
                  omega arith,
                  consider-keep best r₀ top below (λ _. ltb→le _ _ less),
                ))
        ]
      ]
    ]

  match_loop-Seen :
      (rest : List Rule) (i : ℕ) (b : Best)
      → ((k : ℕ) → get_elem? rules (i + k) ≡ get_elem? rest k)
      → Seen i b
      → Seen (i + length rest) (match_loop method path rest i b)
  unfolding match_loop
  match_loop-Seen [] i b same seen = subst (λ n. Seen n b) {x = i} {y = i + 0} (omega arith) seen
  match_loop-Seen (r ∷ rest) i b same seen =
      let at : get_elem? rules i ≡ some r =
        ap (get_elem? rules) {x = i} {y = i + 0} (omega arith) ∙ same 0 in
      let shifted : (k : ℕ) → get_elem? rules (i + 1 + k) ≡ get_elem? rest k =
        λ k. ap (get_elem? rules) {x = i + 1 + k} {y = i + suc k} (omega arith) ∙ same (suc k) in
      subst (λ n. Seen n (match_loop method path rest (i + 1) (consider method path i r b)))
        {x = i + 1 + length rest} {y = i + suc (length rest)} (omega arith)
        (match_loop-Seen rest (i + 1) (consider method path i r b) shifted
          (consider-Seen i r at b seen))

  match_loop_end : Seen (length rules) (match_loop method path rules 0 no_best)
  match_loop_end =
      subst (λ n. Seen n (match_loop method path rules 0 no_best)) {x = 0 + length rules}
        (omega arith)
        (match_loop-Seen rules 0 no_best
          (λ k. ap (get_elem? rules) {x = 0 + k} {y = k} (omega arith))
          (inl (refl, λ j s lt e. absurd (omega arith))))

-- `r` has the longer prefix, or one as long and, where it names no method, `s` names none.
abbrev pub Beats : Rule → Rule → Type 0
Beats r s =
    (length s.prefix < length r.prefix)
    ⊎ ((length s.prefix ≡ length r.prefix)
        × ((is_empty s.method ≡ true) ⊎ (is_empty r.method ≡ false)))

score-Beats : (r s : Rule) → score s ≤ score r → Beats r s
score-Beats r s h = elim (Bool-cases (ltb (length s.prefix) (length r.prefix))) [
  | inl lt ↦ inl (ltb→lt (length s.prefix) (length r.prefix) lt)
  | inr le ↦ elim (Bool-cases (is_empty r.method)) [
    | inr named ↦ inr (ground arith, inr named)
    | inl any ↦ inr (ground arith, inl (ground arith))
  ]
]

-- What a result of `match` means.
abbrev pub IsMatch : Bytes → Bytes → List Rule → ℕ × Bool → Type 0
IsMatch method path rules (i, false) = All (λ s. applies method path s ≡ false) rules
IsMatch method path rules (i, true) =
    (r : Rule) × (get_elem? rules i ≡ some r)
    × (applies method path r ≡ true)
    × All (λ s. (applies method path s ≡ false) ⊎ Beats r s) rules

-- A rule applies to a request if it names no method or the request's, and if its prefix starts the
-- path. If `match` reports no rule, none applies. The rule that it reports applies, and every other
-- that applies has a shorter prefix, or one as long and no method unless the reported rule names one.
pub match_best :
    (method path : Bytes) (rules : List Rule) → IsMatch method path rules (match method path rules)
unfolding match
match_best method path rules = elim (match_loop_end method path rules) [
  | inl (e, nothing) ↦ rw e (
      All-of_get_elem? (λ s. applies method path s ≡ false) rules
        (λ j s at. nothing j s (get_elem?-lt rules j s at) at))
  | inr (r, best, e, below, (at, is_r, top)) ↦ rw e (
    r,
    at,
    is_r,
    All-of_get_elem? (λ s. (applies method path s ≡ false) ⊎ Beats r s) rules
        (λ j s at_j. elim (Bool-cases (applies method path s)) [
          | inr no_match ↦ inl no_match
          | inl is_s ↦ inr (score-Beats r s (top j s (get_elem?-lt rules j s at_j) at_j is_s).0)
        ]),
  )
]
