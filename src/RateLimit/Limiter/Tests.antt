-- ===== src/RateLimit/Limiter/Tests.antt =====
-- A limiter of one rule, two callers and a refusal, with whole numbers for the floating-point ones.
use go_polymarket.Base.{
  ℕ, ◌+◌, ◌-◌, ◌*◌, ◌/◌, ◌≤◌, ◌≡◌, refl, false, true, Option, none, some, List, [], ◌∷◌, arith, min,
  max, ltb, leb, length, if◌then◌else◌,
}
use go_polymarket.Base.Bytes.{Bytes, codes, bytes_eq}
use go_polymarket.Base.Int.{pos, pos_part}
use go_polymarket.Base.Decimal.{parse_ℕ, parse_int64}
use go_polymarket.RateLimit.Window.History.{run, within}
use go_polymarket.RateLimit.Window.Bound.{opened}
use go_polymarket.RateLimit.Rules.{Rule, second, match, match_loop, consider, Which}
use go_polymarket.RateLimit.Bucket.{Floats, tier_standard}
use go_polymarket.RateLimit.Limiter.{
  Request, Header, new_limiter, limit_at, window_for, tokens_of, begin_wait, unix_time,
}
use go_polymarket.RateLimit.Limiter.Observe.{observe, refused_until}
use go_polymarket.RateLimit.Limiter.Trace.{
  Action, wait_at, leave, observe_at, pace, pace_all, all_events,
}
use go_polymarket.RateLimit.Limiter.Steps.{claims}
use go_polymarket.RateLimit.Limiter.Bound.{paced, limiter_refines, limiter_bound}
use go_polymarket.RateLimit.Limiter.Cap.{IsCapped, observe-IsCapped}
use go_polymarket.RateLimit.Limiter.Freeze.{refusal_honoured}

abbrev whole : Floats
whole = record {
  F64 = ℕ;
  of_ℤ = pos_part;
  plus = λ x y. x + y;
  minus = λ x y. x - y;
  times = λ x y. x * y;
  over = λ x y. x / y;
  negate = λ x. 0;
  least = min;
  most = max;
  lt = ltb;
  le = leb;
  is_nan = λ x. false;
  seconds = λ n. n / second;
  nanoseconds = λ x. x * second;
}

abbrev no_date : Bytes → Option ℕ
no_date s = none

abbrev one_rule : List Rule
one_rule =
    (record {
      method = codes "POST";
      prefix = codes "/order";
      limit = record { requests = pos 2; window = 10 };
    })
    ∷ []

abbrev post_order : Request
post_order = record { method = codes "POST"; path = codes "/order"; cost = pos 1 }

abbrev come_back : Header
come_back name = if bytes_eq name (codes "Retry-After") then codes "7" else []

abbrev seen : Action no_date whole parse_ℕ
seen = observe_at post_order 429 come_back 5 5

abbrev acts : List (Action no_date whole parse_ℕ)
acts = wait_at 1 post_order ∷ wait_at 2 post_order ∷ leave 0 2 ∷ seen ∷ wait_at 6 post_order ∷ []

matched : match (codes "POST") (codes "/order") one_rule ≡ (0, true)
unfolding match match_loop consider
matched = refl

refused : refused_until no_date whole parse_ℕ 429 come_back 5 ≡ some 7000000005
unfolding refused_until parse_int64
refused = refl

-- The largest number of seconds wraps, and is no deadline.
far_reset : unix_time (pos 9223372036854775807) ≡ 0
unfolding unix_time
far_reset = refl

limiter_refines_example :
    (window_for whole (paced no_date whole parse_ℕ one_rule (tier_standard whole) acts).limiter 0
      ≡ (run
          (all_events no_date whole parse_ℕ one_rule 0 acts)
          (opened (limit_at one_rule 0))).window)
    × (claims no_date whole parse_ℕ 0
          (paced no_date whole parse_ℕ one_rule (tier_standard whole) acts)
        ≡ (run
            (all_events no_date whole parse_ℕ one_rule 0 acts)
            (opened (limit_at one_rule 0))).live)
limiter_refines_example =
    limiter_refines no_date whole parse_ℕ one_rule (tier_standard whole) acts 0

limiter_bound_example :
    length (
      within 0 10 (
        claims no_date whole parse_ℕ 0
          (paced no_date whole parse_ℕ one_rule (tier_standard whole) acts)))
    ≤ 2
limiter_bound_example =
    limiter_bound no_date whole parse_ℕ one_rule (tier_standard whole) acts 0 0
      (omega arith, (omega arith, (tt, (tt, (omega arith, tt))))) (omega arith)

observe-IsCapped_example :
    ((i : ℕ)
      → IsCapped
          (window_for whole
            (paced no_date whole parse_ℕ one_rule (tier_standard whole) acts).limiter
            i).frozen_till
          (window_for whole
            (observe no_date whole parse_ℕ
              (paced no_date whole parse_ℕ one_rule (tier_standard whole) acts).limiter
              post_order
              429
              come_back
              5
              5)
            i).frozen_till
          429
          5)
    × ((k : Which)
        → IsCapped
            (tokens_of whole
              (paced no_date whole parse_ℕ one_rule (tier_standard whole) acts).limiter
              k).frozen_till
            (tokens_of whole
              (observe no_date whole parse_ℕ
                (paced no_date whole parse_ℕ one_rule (tier_standard whole) acts).limiter
                post_order
                429
                come_back
                5
                5)
              k).frozen_till
            429
            5)
observe-IsCapped_example =
    observe-IsCapped no_date whole parse_ℕ
      (paced no_date whole parse_ℕ one_rule (tier_standard whole) acts).limiter post_order 429
      come_back 5 5

refusal_honoured_example :
    7000000005
    ≤ (begin_wait whole
        (pace_all no_date whole parse_ℕ (wait_at 6 post_order ∷ []) (
          pace no_date whole parse_ℕ seen
            (paced no_date whole parse_ℕ one_rule (tier_standard whole) []))).limiter
        8
        post_order).0.when
unfolding pace_all new_limiter
refusal_honoured_example =
    refusal_honoured no_date whole parse_ℕ
      (paced no_date whole parse_ℕ one_rule (tier_standard whole) []) post_order post_order 429
      come_back 5 5 7000000005 8 0 (wait_at 6 post_order ∷ []) matched matched refused
