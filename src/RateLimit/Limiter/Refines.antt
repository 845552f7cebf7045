-- ===== src/RateLimit/Limiter/Refines.antt =====
-- ratelimit.go: the limiter's windows beside the histories of Window/History.antt, action by action.
use go_polymarket.Base.{
  ℕ, ◌≡◌, refl, sym, ap, ◌∙◌, subst, Bool, true, false, Option, none, some, List, [], ◌∷◌, arith,
  ◌==◌, ==_iff, if◌then◌else◌, Bool-cases, inl, inr,
}
use go_polymarket.Base.Bytes.{Bytes}
use go_polymarket.RateLimit.Window.{SlidingWindow, reserve, release, freeze}
use go_polymarket.RateLimit.Window.History.{
  History, Claim, reserve_at, abandon, freeze_until, step, run, take_claim,
}
use go_polymarket.RateLimit.Rules.{Which, order, cancel, bucket_for}
use go_polymarket.RateLimit.Bucket.{Floats, TokenBucketState}
use go_polymarket.RateLimit.Limiter.{
  Request, StandardLimiter, Place, window_for, set_window, set_tokens, reserve_matched, spend_from,
  reserve_bucket, give_up, leave_window, leave_bucket,
}
use go_polymarket.RateLimit.Limiter.Observe.{freeze_matched}
use go_polymarket.RateLimit.Limiter.Tickets.{taken, take_ticket-elsewhere}
use go_polymarket.RateLimit.Limiter.Trace.{leave, Pacing, pace, claim_of, claims_at, if_matched}

module _ (fl : Floats) where
  -- Two limiters with the same rules and windows.
  abbrev pub SameWindows : StandardLimiter fl → StandardLimiter fl → Type 0
  SameWindows l m = (l.rules ≡ m.rules) × ((i : ℕ) → window_for fl l i ≡ window_for fl m i)

  pub set_tokens-SameWindows :
      (l : StandardLimiter fl) (k : Which) (b : TokenBucketState fl)
      → SameWindows (set_tokens fl l k b) l
  unfolding window_for
  set_tokens-SameWindows l order b = (refl, λ i. refl)
  set_tokens-SameWindows l cancel b = (refl, λ i. refl)

  pub leave_bucket-SameWindows :
      (l : StandardLimiter fl) (k : Option Which) (cost : fl.F64)
      → SameWindows (leave_bucket fl l k cost) l
  leave_bucket-SameWindows l none cost = (refl, λ i. refl)
  leave_bucket-SameWindows l (some k) cost = set_tokens-SameWindows l k _

  pub reserve_bucket-SameWindows :
      (l : StandardLimiter fl) (now : ℕ) (r : Request) → SameWindows (reserve_bucket fl l now r).1 l
  unfolding reserve_bucket
  reserve_bucket-SameWindows l now r = spent (bucket_for r.method r.path)
    where
      spent : (k : Option Which) → SameWindows (spend_from fl l now r k).1 l
      spent none = (refl, λ i. refl)
      spent (some k) = set_tokens-SameWindows l k _

  window_for-set_window :
      (l : StandardLimiter fl) (i j : ℕ) (w : SlidingWindow)
      → window_for fl (set_window fl l j w) i ≡ (if i == j then w else window_for fl l i)
  unfolding window_for set_window
  window_for-set_window l i j w = elim (Bool-cases (i == j)) [
    | inl e ↦ rw e refl
    | inr e ↦ rw e refl
  ]

  window_there :
      (l : StandardLimiter fl) (i j : ℕ) (w : SlidingWindow)
      → (j == i) ≡ true
      → window_for fl (set_window fl l j w) i ≡ w
  window_there l i j w e =
      let same = (==_iff j i).0 e in
      window_for-set_window l i j w ∙ rw ((==_iff i j).1 (sym same)) refl

  window_elsewhere :
      (l : StandardLimiter fl) (i j : ℕ) (w : SlidingWindow)
      → (j == i) ≡ false
      → window_for fl (set_window fl l j w) i ≡ window_for fl l i
  window_elsewhere l i j w e =
      let other : (i == j) ≡ false = ground (arith, e) in
      window_for-set_window l i j w ∙ rw other refl

  pub set_window-rules :
      (l : StandardLimiter fl) (j : ℕ) (w : SlidingWindow) → (set_window fl l j w).rules ≡ l.rules
  unfolding set_window
  set_window-rules l j w = refl

module _ (parse_time : Bytes → Option ℕ) (fl : Floats) (parse_float : Bytes → Option (fl.F64)) where
  -- A limiter agrees with the history of the window of rule `i`.
  abbrev pub Agrees : ℕ → StandardLimiter fl → List Claim → History → Type 0
  Agrees i l claims h = (window_for fl l i ≡ h.window) × (claims ≡ h.live)

  pub reserve_matched-Agrees :
      (l : StandardLimiter fl) (now i : ℕ) (found : ℕ × Bool) (claims : List Claim) (h : History)
      → Agrees i l claims h
      → Agrees i
          (reserve_matched fl l now found).1
          (claim_of parse_time fl parse_float i (reserve_matched fl l now found).0 claims)
          (run (if_matched parse_time fl parse_float found i (reserve_at now)) h)
  unfolding run step
  reserve_matched-Agrees l now i (j, false) claims h a = a
  reserve_matched-Agrees l now i (j, true) claims h (ew, ec) = elim (Bool-cases (j == i)) [
    | inr e ↦ rw e (window_elsewhere fl l i j _ e ∙ ew, ec)
    | inl e ↦
        let there : window_for fl l j ≡ h.window = ap (window_for fl l) ((==_iff j i).0 e) ∙ ew in
        rw e (window_there fl l i j _ e ∙ ap (λ w. (reserve w now).2) there, rw (there, ec) refl)
  ]

  pub freeze_matched-Agrees :
      (l : StandardLimiter fl) (i until : ℕ) (found : ℕ × Bool) (claims : List Claim) (h : History)
      → Agrees i l claims h
      → Agrees i
          (freeze_matched parse_time fl parse_float l found until)
          claims
          (run (if_matched parse_time fl parse_float found i (freeze_until until)) h)
  unfolding run step
  freeze_matched-Agrees l i until (j, false) claims h a = a
  freeze_matched-Agrees l i until (j, true) claims h (ew, ec) = elim (Bool-cases (j == i)) [
    | inr e ↦ rw e (window_elsewhere fl l i j _ e ∙ ew, ec)
    | inl e ↦
        let there : window_for fl l j ≡ h.window = ap (window_for fl l) ((==_iff j i).0 e) ∙ ew in
        rw e (window_there fl l i j _ e ∙ ap (λ w. freeze w until) there, ec)
  ]

  leave_window-Agrees :
      (l : StandardLimiter fl) (i k : ℕ) (p : Place) (claims : List Claim) (h : History)
      → window_for fl l i ≡ h.window
      → (p.rule == i) ≡ true
      → take_claim k h.live ≡ some (record { when = p.at; res = p.res }, claims)
      → Agrees i (leave_window fl l (some p)) claims (run (abandon k ∷ []) h)
  unfolding run step
  leave_window-Agrees l i k p claims h ew here took =
      let there : window_for fl l p.rule ≡ h.window =
        ap (window_for fl l) ((==_iff p.rule i).0 here) ∙ ew in
      rw took (window_there fl l i p.rule _ here ∙ ap (λ w. release w p.res) there, refl)

  pub leave-Agrees :
      (s : Pacing parse_time fl parse_float) (i j k : ℕ) (h : History)
      → Agrees i s.limiter (claims_at parse_time fl parse_float i s.tickets) h
      → Agrees i
          (pace parse_time fl parse_float (leave j k) s).limiter
          (claims_at parse_time fl parse_float i
            (pace parse_time fl parse_float (leave j k) s).tickets)
          (run (if j == i then abandon k ∷ [] else []) h)
  unfolding pace give_up run step
  leave-Agrees s i j k h (ew, ec) = elim (taken parse_time fl parse_float j k s.tickets) [
    | inl (lost, missing) ↦ elim (Bool-cases (j == i)) [
      | inr away ↦ rw (lost, away) (ew, ec)
      | inl here ↦
          let none_here : take_claim k h.live ≡ none =
            ap (take_claim k) (
              sym ec
              ∙ ap (λ n. claims_at parse_time fl parse_float n s.tickets)
                  (sym ((==_iff j i).0 here)))
            ∙ missing in
          rw (lost, here, none_here) (ew, ec)
    ]
    | inr (t, rest, p, got, ep, er, took) ↦ elim (Bool-cases (j == i)) [
      | inr away ↦
          let other : (p.rule == i) ≡ false = ground (arith, ==_iff p.rule j) in
          rw (got, away, ep)
            (
              (leave_bucket-SameWindows fl _ t.which t.cost).1 i
                  ∙ window_elsewhere fl s.limiter i p.rule _ other
                  ∙ ew,
              take_ticket-elsewhere parse_time fl parse_float i j k s.tickets t rest away got ∙ ec,
            )
      | inl here ↦
          let same = (==_iff j i).0 here in
          let found : take_claim k h.live
              ≡ some (
                record { when = p.at; res = p.res },
                claims_at parse_time fl parse_float i rest,
              ) =
            ap (take_claim k) (sym ec)
            ∙ subst
                (λ n.
                  take_claim k (claims_at parse_time fl parse_float n s.tickets)
                  ≡ some (
                    record { when = p.at; res = p.res },
                    claims_at parse_time fl parse_float n rest,
                  ))
                same took in
          let left =
            leave_window-Agrees s.limiter i k p (claims_at parse_time fl parse_float i rest) h ew
              (subst (λ n. (p.rule == n) ≡ true) same er) found in
          rw (got, here, ep) ((leave_bucket-SameWindows fl _ t.which t.cost).1 i ∙ left.0, left.1)
    ]
  ]
