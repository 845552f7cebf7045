-- ===== src/RateLimit/Limiter/Freeze.antt =====
-- ratelimit.go: the deadline of a refusal, and the requests after it.
use go_polymarket.Base.{
  ℕ, ◌≤◌, ◌≡◌, refl, sym, ap, ◌∙◌, subst, true, Option, none, some, List, [], ◌∷◌, arith, ==_iff,
}
use go_polymarket.Base.Bytes.{Bytes}
use go_polymarket.RateLimit.Window.{SlidingWindow, reserve, claim_slot, release, freeze}
use go_polymarket.RateLimit.Window.History.{
  History, Event, reserve_at, abandon, freeze_until, refunded, take_claim, step, run,
}
use go_polymarket.RateLimit.Window.Choice.{reserve_waits}
use go_polymarket.RateLimit.Rules.{Rule, match, Which}
use go_polymarket.RateLimit.Bucket.{Floats}
use go_polymarket.RateLimit.Limiter.{
  Request, Header, StandardLimiter, window_for, place_time, bucket_time, reserve_matched,
  reserve_window, reserve_bucket, begin_wait,
}
use go_polymarket.RateLimit.Limiter.Observe.{refused_until}
use go_polymarket.RateLimit.Limiter.Steps.{
  claims, pace-Agrees, pace_all-Agrees, pace-rules, pace_all-rules,
}
use go_polymarket.RateLimit.Limiter.Trace.{
  Action, observe_at, Pacing, pace, pace_all, events_of, all_events,
}

freeze-frozen_till :
    (w : SlidingWindow) (t : ℕ)
    → (w.frozen_till ≤ (freeze w t).frozen_till) × (t ≤ (freeze w t).frozen_till)
unfolding freeze
freeze-frozen_till w t = ground arith

refunded-frozen_till :
    (h : History) (o : Option _) → h.window.frozen_till ≤ (refunded h o).window.frozen_till
unfolding release
refunded-frozen_till h none = omega arith
refunded-frozen_till h (some (c, rest)) = ground arith

run-frozen_till :
    (events : List Event) (h : History) → h.window.frozen_till ≤ (run events h).window.frozen_till
unfolding run step reserve claim_slot
run-frozen_till [] h = omega arith
run-frozen_till (reserve_at now ∷ events) h =
    omega (arith, run-frozen_till events (step (reserve_at now) h))
run-frozen_till (abandon k ∷ events) h = omega (
  arith,
  refunded-frozen_till h (take_claim k h.live),
  run-frozen_till events (step (abandon k) h),
)
run-frozen_till (freeze_until t ∷ events) h =
    omega (arith, freeze-frozen_till h.window t, run-frozen_till events (step (freeze_until t) h))

bucket_time-le : (now t : ℕ) (o : Option (Which × ℕ)) → now ≤ t → t ≤ bucket_time t o
bucket_time-le now t none h = omega arith
bucket_time-le now t (some (k, u)) h = ground arith

module _ (parse_time : Bytes → Option ℕ) (fl : Floats) (parse_float : Bytes → Option (fl.F64)) where
  -- A request waits for the freeze of the window of its rule.
  begin_wait-frozen_till :
      (l : StandardLimiter fl) (now i : ℕ) (r : Request)
      → match r.method r.path l.rules ≡ (i, true)
      → (window_for fl l i).frozen_till ≤ (begin_wait fl l now r).0.when
  unfolding begin_wait reserve_window
  begin_wait-frozen_till l now i r e =
      let (clock, frozen) = reserve_waits (window_for fl l i) now in
      let (spent, _) =
        reserve_bucket fl (reserve_matched fl l now (match r.method r.path l.rules)).1 now r in
      let placed : (window_for fl l i).frozen_till
          ≤ place_time now (reserve_matched fl l now (i, true)).0 =
        ground arith in
      let kept : (window_for fl l i).frozen_till
          ≤ place_time now (reserve_matched fl l now (match r.method r.path l.rules)).0 =
        subst
          (λ found.
            (window_for fl l i).frozen_till ≤ place_time now (reserve_matched fl l now found).0)
          (sym e) placed in
      omega (
        arith,
        kept,
        bucket_time-le 0
            (place_time now (reserve_matched fl l now (match r.method r.path l.rules)).0) spent
            (omega arith),
      )

  frozen_by :
      (rules : List Rule) (r : Request) (status : ℕ) (header : Header) (balance_now now until i : ℕ)
      (h : History)
      → match r.method r.path rules ≡ (i, true)
      → refused_until parse_time fl parse_float status header now ≡ some until
      → until
        ≤ (run
            (events_of parse_time fl parse_float rules i
              (observe_at r status header balance_now now))
            h).window.frozen_till
  unfolding events_of run step
  frozen_by rules r status header balance_now now until i h e refused =
      rw (e, refused, (==_iff i i).1 refl) (freeze-frozen_till h.window until).1

  -- After a response that refuses a request and names a deadline, however the limiter is used in between, no request
  -- under the same rule is scheduled before the deadline.
  pub refusal_honoured :
      (s : Pacing parse_time fl parse_float) (r r' : Request) (status : ℕ) (header : Header)
      (balance_now now until now' i : ℕ) (acts : List (Action parse_time fl parse_float))
      → match r.method r.path s.limiter.rules ≡ (i, true)
      → match r'.method r'.path s.limiter.rules ≡ (i, true)
      → refused_until parse_time fl parse_float status header now ≡ some until
      → until
        ≤ (begin_wait fl
            (pace_all parse_time fl parse_float acts (
              pace parse_time fl parse_float
                (observe_at r status header balance_now now)
                s)).limiter
            now'
            r').0.when
  unfolding pace_all
  refusal_honoured s r r' status header balance_now now until now' i acts e e' refused =
      let seen : Action parse_time fl parse_float = observe_at r status header balance_now now in
      let after = pace parse_time fl parse_float seen s in
      let end = pace_all parse_time fl parse_float acts after in
      let h : History = record {
        window = window_for fl s.limiter i;
        live = claims parse_time fl parse_float i s;
      } in
      let (froze, live) = pace-Agrees parse_time fl parse_float seen s i h (refl, refl) in
      let (kept, _) =
        pace_all-Agrees parse_time fl parse_float acts after s.limiter.rules i
          (run (events_of parse_time fl parse_float s.limiter.rules i seen) h)
          (pace-rules parse_time fl parse_float seen s) (froze, live) in
      let frozen = frozen_by s.limiter.rules r status header balance_now now until i h e refused in
      let later =
        run-frozen_till (all_events parse_time fl parse_float s.limiter.rules i acts)
          (run (events_of parse_time fl parse_float s.limiter.rules i seen) h) in
      let same_rules =
        pace_all-rules parse_time fl parse_float acts after
        ∙ pace-rules parse_time fl parse_float seen s in
      let waits =
        begin_wait-frozen_till end.limiter now' i r'
          (ap (match r'.method r'.path) same_rules ∙ e') in
      omega (arith, frozen, later, ap (λ (w : SlidingWindow). w.frozen_till) kept, waits)
