-- ===== src/RateLimit/Limiter/Bound.antt =====
-- ratelimit.go: a new limiter and the windows of its rules, over any sequence of actions.
use go_polymarket.Base.{
  ℕ, ◌^◌, ◌≤◌, ◌<◌, ◌≡◌, refl, sym, subst, Bool, true, false, Option, none, some, List, [], ◌∷◌,
  arith, ◌==◌, Bool-cases, inl, inr, length, length-append, All, All-append,
}
use go_polymarket.Base.Bytes.{Bytes}
use go_polymarket.RateLimit.Window.History.{Event, IsReal, run, within, reserve_at, freeze_until}
use go_polymarket.RateLimit.Window.Bound.{window_bound, capacity, opened}
use go_polymarket.RateLimit.Rules.{Rule, match}
use go_polymarket.RateLimit.Bucket.{Floats, Tier}
use go_polymarket.RateLimit.Limiter.{window_for, limit_at, new_limiter}
use go_polymarket.RateLimit.Limiter.Trace.{
  Action, wait_at, leave, leave_unpaced, observe_at, Pacing, pace_all, if_matched, refusal_events,
  events_of, all_events,
}
use go_polymarket.RateLimit.Limiter.Steps.{claims, pace_all-Agrees}

module _ (parse_time : Bytes → Option ℕ) (fl : Floats) (parse_float : Bytes → Option (fl.F64)) where
  abbrev pub started : List Rule → Tier fl → Pacing parse_time fl parse_float
  started rules tier = record { limiter = new_limiter fl rules tier; tickets = [] }

  abbrev pub paced :
      List Rule
      → Tier fl
      → List (Action parse_time fl parse_float)
      → Pacing parse_time fl parse_float
  paced rules tier acts = pace_all parse_time fl parse_float acts (started rules tier)

  -- Whatever sequence of waits, cancelled waits and responses a new limiter goes through, the window of each rule, and the
  -- places in it that are not given up, are those that the window's own reservations, refunds and freezes make of a
  -- new window of the rule's limit.
  pub limiter_refines :
      (rules : List Rule) (tier : Tier fl) (acts : List (Action parse_time fl parse_float)) (i : ℕ)
      → (window_for fl (paced rules tier acts).limiter i
          ≡ (run
              (all_events parse_time fl parse_float rules i acts)
              (opened (limit_at rules i))).window)
        × (claims parse_time fl parse_float i (paced rules tier acts)
            ≡ (run
                (all_events parse_time fl parse_float rules i acts)
                (opened (limit_at rules i))).live)
  unfolding new_limiter window_for
  limiter_refines rules tier acts i =
      pace_all-Agrees parse_time fl parse_float acts (started rules tier) rules i
        (opened (limit_at rules i)) refl (refl, refl)

  -- The clock of a wait does not show the zero time.
  abbrev pub IsTimed : Action parse_time fl parse_float → Type 0
  IsTimed (wait_at now r) = 0 < now
  IsTimed (leave i k) = Unit
  IsTimed (leave_unpaced k cost) = Unit
  IsTimed (observe_at r status header balance_now now) = Unit

  if_matched-few :
      (found : ℕ × Bool) (i : ℕ) (e : Event)
      → length (if_matched parse_time fl parse_float found i e) ≤ 1
  if_matched-few (j, false) i e = omega arith
  if_matched-few (j, true) i e = ground arith

  refusal_events-few :
      (found : ℕ × Bool) (i : ℕ) (o : Option ℕ)
      → length (refusal_events parse_time fl parse_float found i o) ≤ 1
  refusal_events-few found i none = omega arith
  refusal_events-few found i (some until) = if_matched-few found i (freeze_until until)

  events_of-few :
      (rules : List Rule) (i : ℕ) (a : Action parse_time fl parse_float)
      → length (events_of parse_time fl parse_float rules i a) ≤ 1
  unfolding events_of
  events_of-few rules i (wait_at now r) =
      if_matched-few (match r.method r.path rules) i (reserve_at now)
  events_of-few rules i (leave j k) = ground arith
  events_of-few rules i (leave_unpaced k cost) = omega arith
  events_of-few rules i (observe_at r status header balance_now now) =
      refusal_events-few (match r.method r.path rules) i _

  all_events-few :
      (rules : List Rule) (i : ℕ) (acts : List (Action parse_time fl parse_float))
      → length (all_events parse_time fl parse_float rules i acts) ≤ length acts
  unfolding all_events
  all_events-few rules i [] = omega arith
  all_events-few rules i (a ∷ acts) = omega (
    arith,
    length-append (events_of parse_time fl parse_float rules i a)
        (all_events parse_time fl parse_float rules i acts),
    events_of-few rules i a,
    all_events-few rules i acts,
  )

  if_matched-IsReal :
      (found : ℕ × Bool) (i : ℕ) (e : Event)
      → IsReal e
      → All IsReal (if_matched parse_time fl parse_float found i e)
  if_matched-IsReal (j, false) i e h = tt
  if_matched-IsReal (j, true) i e h = elim (Bool-cases (j == i)) [
    | inl here ↦ rw here (h, tt)
    | inr away ↦ rw away tt
  ]

  refusal_events-IsReal :
      (found : ℕ × Bool) (i : ℕ) (o : Option ℕ)
      → All IsReal (refusal_events parse_time fl parse_float found i o)
  refusal_events-IsReal found i none = tt
  refusal_events-IsReal found i (some until) = if_matched-IsReal found i (freeze_until until) tt

  events_of-IsReal :
      (rules : List Rule) (i : ℕ) (a : Action parse_time fl parse_float)
      → IsTimed a
      → All IsReal (events_of parse_time fl parse_float rules i a)
  unfolding events_of
  events_of-IsReal rules i (wait_at now r) h =
      if_matched-IsReal (match r.method r.path rules) i (reserve_at now) h
  events_of-IsReal rules i (leave j k) h = elim (Bool-cases (j == i)) [
    | inl here ↦ rw here (tt, tt)
    | inr away ↦ rw away tt
  ]
  events_of-IsReal rules i (leave_unpaced k cost) h = tt
  events_of-IsReal rules i (observe_at r status header balance_now now) h =
      refusal_events-IsReal (match r.method r.path rules) i _

  all_events-IsReal :
      (rules : List Rule) (i : ℕ) (acts : List (Action parse_time fl parse_float))
      → All IsTimed acts
      → All IsReal (all_events parse_time fl parse_float rules i acts)
  unfolding all_events
  all_events-IsReal rules i [] h = tt
  all_events-IsReal rules i (a ∷ acts) (h, hs) =
      All-append IsReal _ _ (events_of-IsReal rules i a h) (all_events-IsReal rules i acts hs)

  -- Whatever sequence of fewer than 2^64 waits, cancelled waits and responses a new limiter goes through, if no wait's clock
  -- shows the zero time: in any stretch of time of a rule's window, at most as many requests that are not given up have
  -- a place in the window as the rule's limit allows, a limit below one counting as one.
  pub limiter_bound :
      (rules : List Rule) (tier : Tier fl) (acts : List (Action parse_time fl parse_float))
      (i t : ℕ)
      → All IsTimed acts
      → length acts < 2 ^ 64
      → length (
          within t
            (limit_at rules i).window
            (claims parse_time fl parse_float i (paced rules tier acts)))
        ≤ capacity (limit_at rules i)
  limiter_bound rules tier acts i t timed few =
      let events = all_events parse_time fl parse_float rules i acts in
      subst (λ cs. length (within t (limit_at rules i).window cs) ≤ capacity (limit_at rules i))
        (sym (limiter_refines rules tier acts i).1)
        (window_bound (limit_at rules i) events t (all_events-IsReal rules i acts timed)
          (omega (arith, all_events-few rules i acts, few)))
