-- ===== src/RateLimit/Limiter/Tickets.antt =====
-- The tickets that wait, and the claims of the history of a window.
use go_polymarket.Base.{
  ℕ, ◌≡◌, refl, ◌⊎◌, inl, inr, true, false, Option, none, some, List, [], ◌∷◌, arith, ◌==◌, ==_iff,
  Bool-cases,
}
use go_polymarket.Base.Bytes.{Bytes}
use go_polymarket.RateLimit.Window.History.{Claim, take_claim}
use go_polymarket.RateLimit.Bucket.{Floats}
use go_polymarket.RateLimit.Limiter.{Place, Ticket}
use go_polymarket.RateLimit.Limiter.Trace.{take_ticket, claims_at}

Option-cases {ℓ} : {A : Type ℓ} (o : Option A) → (o ≡ none) ⊎ ((a : A) × (o ≡ some a))
Option-cases none = inl refl
Option-cases (some a) = inr (a, refl)

module _ (parse_time : Bytes → Option ℕ) (fl : Floats) (parse_float : Bytes → Option (fl.F64)) where
  abbrev take_at : ℕ → ℕ → List (Ticket fl) → Option (Ticket fl × List (Ticket fl))
  take_at = take_ticket parse_time fl parse_float

  abbrev claims : ℕ → List (Ticket fl) → List Claim
  claims = claims_at parse_time fl parse_float

  -- Both searches fail, or both succeed with the same place and leave the same claims.
  abbrev pub Taken : ℕ → ℕ → List (Ticket fl) → Type 0
  Taken i k ts =
      ((take_at i k ts ≡ none) × (take_claim k (claims i ts) ≡ none))
      ⊎ ((t : Ticket fl) × (rest : List (Ticket fl)) × (p : Place) × (take_at i k ts
            ≡ some (t, rest))
          × (t.place ≡ some p)
          × ((p.rule == i) ≡ true)
          × (take_claim k (claims i ts)
              ≡ some (record { when = p.at; res = p.res }, claims i rest)))

  pub taken : (i k : ℕ) (ts : List (Ticket fl)) → Taken i k ts
  unfolding take_ticket take_claim
  taken i k [] = inl (refl, refl)
  taken i k (t ∷ ts) = place t.place refl (taken i k ts)
    where
      place : (o : Option Place) → t.place ≡ o → Taken i k ts → Taken i k (t ∷ ts)
      place none e (inl (a, b)) = inl (rw (e, a) refl, rw e b)
      place none e (inr (u, rest, p, a, ep, er, c)) =
          inr (u, t ∷ rest, p, rw (e, a) refl, ep, er, rw e c)
      place (some p) e next = elim (Bool-cases (p.rule == i)) [
        | inr away ↦ elim next [
          | inl (a, b) ↦ inl (ground arith, rw (e, away) b)
          | inr (u, rest, q, a, eq, er, c) ↦
              inr (u, t ∷ rest, q, ground arith, eq, er, rw (e, away) c)
        ]
        | inl here ↦ elim (Bool-cases (p.res.seq == k)) [
          | inl hit ↦ inr (t, ts, p, ground arith, e, here, ground arith)
          | inr miss ↦ elim next [
            | inl (a, b) ↦ inl (ground arith, ground arith)
            | inr (u, rest, q, a, eq, er, c) ↦
                inr (u, t ∷ rest, q, ground arith, eq, er, ground arith)
          ]
        ]
      ]

  -- Taking a ticket of one rule leaves the claims of another.
  pub take_ticket-elsewhere :
      (i j k : ℕ) (ts : List (Ticket fl)) (t : Ticket fl) (rest : List (Ticket fl))
      → (j == i) ≡ false
      → take_at j k ts ≡ some (t, rest)
      → claims i rest ≡ claims i ts
  unfolding take_ticket
  take_ticket-elsewhere i j k [] t rest other e = absurd (cc)
  take_ticket-elsewhere i j k (u ∷ ts) t rest other e =
      place u.place refl (take_at j k ts) refl
        (λ v r got. take_ticket-elsewhere i j k ts v r other got) e
    where
      place :
          (o : Option Place)
          → u.place ≡ o
          → (found : Option (Ticket fl × List (Ticket fl))) → take_at j k ts ≡ found
          → ((v : Ticket fl) (r : List (Ticket fl))
              → take_at j k ts ≡ some (v, r)
              → claims i r ≡ claims i ts)
          → take_at j k (u ∷ ts) ≡ some (t, rest)
          → claims i rest ≡ claims i (u ∷ ts)
      place none eo none ef same e = absurd (ground arith)
      place none eo (some (v, r)) ef same e = ground (arith, same v r ef)
      place (some p) eo none ef same e = ground (arith, ==_iff p.rule j)
      place (some p) eo (some (v, r)) ef same e = ground (arith, same v r ef, ==_iff p.rule j)
