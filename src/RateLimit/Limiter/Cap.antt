-- ===== src/RateLimit/Limiter/Cap.antt =====
-- How long a response may hold the limiter back.
use go_polymarket.Base.{
  ℕ, ◌+◌, ◌≤◌, ◌≡◌, refl, sym, ◌∙◌, subst, ◌⊎◌, inl, inr, Bool, true, false, Option, none, some, [],
  arith, ltb, ◌==◌, ==_iff, if◌then◌else◌, Bool-cases,
}
use go_polymarket.Base.Bytes.{Bytes, codes, is_empty}
use go_polymarket.Base.Int.{ℤ, pos, negsuc}
use go_polymarket.Base.Decimal.{parse_int64}
use go_polymarket.RateLimit.Window.{SlidingWindow, freeze}
use go_polymarket.RateLimit.Window.History.{History, step, run}
use go_polymarket.RateLimit.Rules.{match, Which, order, cancel, bucket_for}
use go_polymarket.RateLimit.Bucket.{Floats, TokenBucketState, adopt, freeze_bucket}
use go_polymarket.RateLimit.Limiter.{
  Request, Header, StandardLimiter, max_freeze, delay_of, unix_time, clamp_freeze, reset_at,
  date_or, retry_after, window_for, set_window, tokens_of,
}
use go_polymarket.RateLimit.Limiter.Observe.{
  freeze_tokens, freeze_matched, adopt_in, adopt_remaining, count_warning, observe, refused_until,
  apply_refusal,
}
use go_polymarket.RateLimit.Limiter.Steps.{pace-Agrees}
use go_polymarket.RateLimit.Limiter.Trace.{observe_at, Pacing, pace, refusal_events, events_of}

clamp_freeze-le : (now t : ℕ) → clamp_freeze now t ≤ now + max_freeze
unfolding clamp_freeze
clamp_freeze-le now t = ground arith

module _ (parse_time : Bytes → Option ℕ) where
  -- The instants that are not too far off.
  abbrev IsNear : ℕ → Option ℕ → Type 0
  IsNear now none = Unit
  IsNear now (some t) = t ≤ now + max_freeze

  if-IsNear :
      (b : Bool) (now : ℕ) (p q : Option ℕ)
      → IsNear now p
      → IsNear now q
      → IsNear now (if b then p else q)
  if-IsNear true now p q hp hq = hp
  if-IsNear false now p q hp hq = hq

  reset_at-IsNear : (now : ℕ) (v : Bytes) → IsNear now (reset_at parse_time now v)
  reset_at-IsNear now v = if-IsNear (is_empty v) now none _ tt (read (parse_int64 v))
    where
      read :
          (o : Option ℤ)
          → IsNear now
              (elim o [ some unix ↦ some (clamp_freeze now (unix_time unix)) | none ↦ none ])
      read none = tt
      read (some unix) = clamp_freeze-le now (unix_time unix)

  retry_after-IsNear : (now : ℕ) (header : Header) → IsNear now (retry_after parse_time now header)
  unfolding retry_after
  retry_after-IsNear now header =
      if-IsNear (is_empty (header (codes "Retry-After"))) now _ _ reset
        (read (parse_int64 (header (codes "Retry-After"))))
    where
      reset : IsNear now (reset_at parse_time now (header (codes "Poly-RateLimit-Reset")))
      reset = reset_at-IsNear now (header (codes "Poly-RateLimit-Reset"))

      dated :
          (o : Option ℕ)
          → IsNear now (elim o [
            | some t ↦ some (clamp_freeze now t)
            | none ↦ reset_at parse_time now (header (codes "Poly-RateLimit-Reset"))
          ])
      dated none = reset
      dated (some t) = clamp_freeze-le now t

      read :
          (o : Option ℤ)
          → IsNear now (elim o [
            | some (pos secs) ↦ some (now + delay_of secs)
            | some (negsuc n) ↦
                date_or parse_time now
                  (header (codes "Retry-After"))
                  (reset_at parse_time now (header (codes "Poly-RateLimit-Reset")))
            | none ↦
                date_or parse_time now
                  (header (codes "Retry-After"))
                  (reset_at parse_time now (header (codes "Poly-RateLimit-Reset")))
          ])
      read none = dated (parse_time (header (codes "Retry-After")))
      read (some (negsuc n)) = dated (parse_time (header (codes "Retry-After")))
      read (some (pos secs)) = ground arith

-- An earlier deadline stands, or a refusal has set one that is at most five minutes away.
abbrev pub IsCapped : ℕ → ℕ → ℕ → ℕ → Type 0
IsCapped old new status now = (new ≡ old) ⊎ ((status ≡ 429) × (new ≤ now + max_freeze))

module _ (parse_time : Bytes → Option ℕ) (fl : Floats) (parse_float : Bytes → Option (fl.F64)) where
  -- Only a refusal names a deadline, and it is near.
  abbrev Deadline : ℕ → ℕ → Option ℕ → Type 0
  Deadline status now none = Unit
  Deadline status now (some t) = (status ≡ 429) × (t ≤ now + max_freeze)

  refused_until-Deadline :
      (status : ℕ) (header : Header) (now : ℕ)
      → Deadline status now (refused_until parse_time fl parse_float status header now)
  unfolding refused_until
  refused_until-Deadline status header now = elim (Bool-cases (status == 429)) [
    | inr other ↦ rw other tt
    | inl refusal ↦ rw refusal (
        near (retry_after parse_time now header) (retry_after-IsNear parse_time now header)
          ((==_iff status 429).0 refusal))
  ]
    where
      near : (o : Option ℕ) → IsNear parse_time now o → status ≡ 429 → Deadline status now o
      near none h e = tt
      near (some t) h e = (e, h)

  freeze-IsCapped :
      (w : SlidingWindow) (status now t : ℕ)
      → (status ≡ 429) × (t ≤ now + max_freeze)
      → IsCapped w.frozen_till (freeze w t).frozen_till status now
  unfolding freeze
  freeze-IsCapped w status now t (refused, near) = elim (Bool-cases (ltb w.frozen_till t)) [
    | inl later ↦ rw later (inr (refused, near))
    | inr held ↦ rw held (inl refl)
  ]

  freeze_bucket-IsCapped :
      (b : TokenBucketState fl) (status now t : ℕ)
      → (status ≡ 429) × (t ≤ now + max_freeze)
      → IsCapped b.frozen_till (freeze_bucket fl b t).frozen_till status now
  unfolding freeze_bucket
  freeze_bucket-IsCapped b status now t (refused, near) = elim (Bool-cases (ltb b.frozen_till t)) [
    | inl later ↦ rw later (inr (refused, near))
    | inr held ↦ rw held (inl refl)
  ]

  window-IsCapped :
      (found : ℕ × Bool) (i status now : ℕ) (o : Option ℕ) (h : History)
      → Deadline status now o
      → IsCapped h.window.frozen_till
          (run (refusal_events parse_time fl parse_float found i o) h).window.frozen_till
          status
          now
  unfolding run step
  window-IsCapped found i status now none h d = inl refl
  window-IsCapped (j, false) i status now (some t) h d = inl refl
  window-IsCapped (j, true) i status now (some t) h d = elim (Bool-cases (j == i)) [
    | inr away ↦ rw away (inl refl)
    | inl here ↦ rw here (freeze-IsCapped h.window status now t d)
  ]

  frozen_of : StandardLimiter fl → Which → ℕ
  frozen_of l k = (tokens_of fl l k).frozen_till

  freeze_tokens-IsCapped :
      (l : StandardLimiter fl) (k : Option Which) (j : Which) (status now t : ℕ)
      → (status ≡ 429) × (t ≤ now + max_freeze)
      → IsCapped
          (frozen_of l j)
          (frozen_of (freeze_tokens parse_time fl parse_float l k t) j)
          status
          now
  unfolding frozen_of
  freeze_tokens-IsCapped l none j status now t d = inl refl
  freeze_tokens-IsCapped l (some order) order status now t d =
      freeze_bucket-IsCapped l.order_tokens status now t d
  freeze_tokens-IsCapped l (some cancel) cancel status now t d =
      freeze_bucket-IsCapped l.cancel_tokens status now t d
  freeze_tokens-IsCapped l (some order) cancel status now t d = inl refl
  freeze_tokens-IsCapped l (some cancel) order status now t d = inl refl

  freeze_matched-frozen :
      (l : StandardLimiter fl) (found : ℕ × Bool) (j : Which) (t : ℕ)
      → frozen_of (freeze_matched parse_time fl parse_float l found t) j ≡ frozen_of l j
  unfolding frozen_of set_window
  freeze_matched-frozen l (i, false) j t = refl
  freeze_matched-frozen l (i, true) order t = refl
  freeze_matched-frozen l (i, true) cancel t = refl

  apply_refusal-IsCapped :
      (l : StandardLimiter fl) (r : Request) (j : Which) (status now : ℕ) (o : Option ℕ)
      → Deadline status now o
      → IsCapped
          (frozen_of l j)
          (frozen_of (apply_refusal parse_time fl parse_float l r o) j)
          status
          now
  apply_refusal-IsCapped l r j status now none d = inl refl
  apply_refusal-IsCapped l r j status now (some t) d =
      let found = match r.method r.path l.rules in
      subst
        (λ old.
          IsCapped old (frozen_of (apply_refusal parse_time fl parse_float l r (some t)) j) status
            now)
        (freeze_matched-frozen l found j t)
        (freeze_tokens-IsCapped (freeze_matched parse_time fl parse_float l found t)
          (bucket_for r.method r.path) j status now t d)

  adopt-frozen :
      (b : TokenBucketState fl) (x : fl.F64) (now : ℕ)
      → (adopt fl b x now).frozen_till ≡ b.frozen_till
  unfolding adopt
  adopt-frozen b x now = elim (Bool-cases (fl.is_nan x)) [ inl e ↦ rw e refl | inr e ↦ rw e refl ]

  adopt_in-frozen :
      (l : StandardLimiter fl) (k : Option Which) (x : Option fl.F64) (now : ℕ) (j : Which)
      → frozen_of (adopt_in parse_time fl parse_float l k x now) j ≡ frozen_of l j
  unfolding frozen_of
  adopt_in-frozen l none x now j = refl
  adopt_in-frozen l (some k) none now j = refl
  adopt_in-frozen l (some order) (some x) now order = adopt-frozen l.order_tokens x now
  adopt_in-frozen l (some cancel) (some x) now cancel = adopt-frozen l.cancel_tokens x now
  adopt_in-frozen l (some order) (some x) now cancel = refl
  adopt_in-frozen l (some cancel) (some x) now order = refl

  if-frozen :
      (b : Bool) (l m : StandardLimiter fl) (n : ℕ) (j : Which)
      → frozen_of l j ≡ n
      → frozen_of m j ≡ n
      → frozen_of (if b then l else m) j ≡ n
  if-frozen true l m n j e e' = e
  if-frozen false l m n j e e' = e'

  count_warning-frozen :
      (l : StandardLimiter fl) (header : Header) (j : Which)
      → frozen_of (count_warning parse_time fl parse_float l header) j ≡ frozen_of l j
  unfolding frozen_of
  count_warning-frozen l header order = if-frozen _ _ l l.order_tokens.frozen_till order refl refl
  count_warning-frozen l header cancel =
      if-frozen _ _ l l.cancel_tokens.frozen_till cancel refl refl

  told-frozen :
      (l : StandardLimiter fl) (r : Request) (header : Header) (now : ℕ) (j : Which)
      → frozen_of
          (adopt_remaining parse_time fl parse_float
            (count_warning parse_time fl parse_float l header)
            r
            header
            now)
          j
        ≡ frozen_of l j
  told-frozen l r header now j =
      let counted = count_warning parse_time fl parse_float l header in
      if-frozen _ counted _ (frozen_of l j) j (count_warning-frozen l header j) (
        adopt_in-frozen counted (bucket_for r.method r.path) _ now j
        ∙ count_warning-frozen l header j)

  -- Observing a response leaves the deadline of every window and of both buckets as it was, or the response refused the
  -- request, with status 429, and the new deadline is at most five minutes away.
  pub observe-IsCapped :
      (l : StandardLimiter fl) (r : Request) (status : ℕ) (header : Header) (balance_now now : ℕ)
      → ((i : ℕ)
          → IsCapped
              (window_for fl l i).frozen_till
              (window_for fl
                (observe parse_time fl parse_float l r status header balance_now now)
                i).frozen_till
              status
              now)
        × ((k : Which)
            → IsCapped
                (tokens_of fl l k).frozen_till
                (tokens_of fl
                  (observe parse_time fl parse_float l r status header balance_now now)
                  k).frozen_till
                status
                now)
  unfolding frozen_of pace events_of observe
  observe-IsCapped l r status header balance_now now = (
    λ i.
        let h : History = record { window = window_for fl l i; live = [] } in
        let s : Pacing parse_time fl parse_float = record { limiter = l; tickets = [] } in
        let (same, _) =
          pace-Agrees parse_time fl parse_float (observe_at r status header balance_now now) s i h
            (refl, refl) in
        subst (λ w. IsCapped (window_for fl l i).frozen_till w.frozen_till status now) (sym same)
          (window-IsCapped (match r.method r.path l.rules) i status now _ h
            (refused_until-Deadline status header now)),
    λ k.
        subst
          (λ old.
            IsCapped old
              (tokens_of fl (observe parse_time fl parse_float l r status header balance_now now)
                k).frozen_till
              status now)
          (told-frozen l r header balance_now k)
          (apply_refusal-IsCapped _ r k status now _ (refused_until-Deadline status header now)),
  )
