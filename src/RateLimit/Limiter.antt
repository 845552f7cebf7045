-- ===== src/RateLimit/Limiter.antt =====
-- ratelimit.go: `StandardLimiter`, the windows of the endpoints and the two buckets of the signer behind one lock, and
-- `Wait`. `http.ParseTime` is a parameter.
mod Tests
pub mod Observe
pub mod Trace
pub mod Tickets
pub mod Refines
pub mod Steps
pub mod Bound
pub mod Freeze
pub mod Cap
use go_polymarket.Base.{
  ℕ, ◌+◌, ◌*◌, ◌-◌, ◌^◌, Bool, true, false, not, ◌&&◌, Option, none, some, List, [], if◌then◌else◌,
  ltb, ◌==◌, get_or, Result, ok, err,
}
use go_polymarket.Base.Bytes.{Bytes, codes, bytes_eq, is_empty}
use go_polymarket.Base.Int.{ℤ, pos, negsuc, ltb_ℤ, abs}
use go_polymarket.Base.Decimal.{parse_int64}
use go_polymarket.RateLimit.Window.{
  RateLimit, WindowReservation, SlidingWindow, new_sliding_window, reserve, release, freeze,
}
use go_polymarket.RateLimit.Rules.{Rule, second, match, Which, order, cancel, bucket_for}
use go_polymarket.RateLimit.Bucket.{
  Floats, Tier, TokenBucketState, new_token_bucket_state, spend, refund, adopt, freeze_bucket,
}

-- What pacing reads of a request.
pub record Request : Type 0 where
  pub method : Bytes
  pub path : Bytes
  pub cost : ℤ

abbrev pub Header : Type 0
Header = Bytes → Bytes

-- Five minutes.
abbrev pub max_freeze : ℕ
max_freeze = 300 * second

-- `time.Unix(unix, 0)`: the seconds since the year one are an `int64`. A time before the year one is the zero
-- time here, since both are after no other.
unfoldable pub unix_time : ℤ → ℕ
unix_time (pos n) = let s = n + 62135596800 in if ltb s (2 ^ 63) then s * second else 0
unix_time (negsuc n) = (62135596800 - (n + 1)) * second

unfoldable pub clamp_freeze : ℕ → ℕ → ℕ
clamp_freeze now until = if ltb (now + max_freeze) until then now + max_freeze else until

-- `int64(maxFreeze/time.Second)` seconds or more are cut to the maximum.
abbrev pub delay_of : ℕ → ℕ
delay_of secs = if ltb secs 300 then secs * second else max_freeze

module _ (parse_time : Bytes → Option ℕ) where
  abbrev pub reset_at : ℕ → Bytes → Option ℕ
  reset_at now v = if is_empty v then none else elim (parse_int64 v) [
    | some unix ↦ some (clamp_freeze now (unix_time unix))
    | none ↦ none
  ]

  -- A `Retry-After` that is neither a number of seconds nor a date leaves the decision to the other header.
  abbrev pub date_or : ℕ → Bytes → Option ℕ → Option ℕ
  date_or now v next = elim (parse_time v) [ some t ↦ some (clamp_freeze now t) | none ↦ next ]

  unfoldable pub retry_after : ℕ → Header → Option ℕ
  unfolding clamp_freeze unix_time
  retry_after now header =
      let reset = reset_at now (header (codes "Poly-RateLimit-Reset")) in
      let v = header (codes "Retry-After") in
      if is_empty v then reset else elim (parse_int64 v) [
        | some (pos secs) ↦ some (now + delay_of secs)
        | some (negsuc n) ↦ date_or now v reset
        | none ↦ date_or now v reset
      ]

-- `l.rules[idx].Limit`, for an index that `match` has returned.
abbrev pub limit_at : List Rule → ℕ → RateLimit
limit_at rules i =
    (get_or rules i
      (record { method = []; prefix = []; limit = record { requests = pos 0; window = 0 } })).limit

-- `l.window[i]`, made of the rule's limit if it is not there.
abbrev pub or_new : RateLimit → Option SlidingWindow → SlidingWindow
or_new limit none = new_sliding_window limit
or_new limit (some w) = w

-- A place in a window: the rule, the time that the window gave and the reservation.
pub record Place : Type 0 where
  pub rule : ℕ
  pub at : ℕ
  pub res : WindowReservation

abbrev pub later : ℕ → ℕ → ℕ
later a b = if ltb a b then b else a

abbrev pub place_time : ℕ → Option Place → ℕ
place_time now none = now
place_time now (some p) = later now p.at

abbrev pub bucket_time : ℕ → Option (Which × ℕ) → ℕ
bucket_time now none = now
bucket_time now (some (k, t)) = later now t

abbrev pub which_of : Option (Which × ℕ) → Option Which
which_of none = none
which_of (some (k, t)) = some k

module _ (fl : Floats) where
  open fl use {F64, of_ℤ}

  pub record StandardLimiter : Type 0 where
    pub rules : List Rule
    pub tier : Tier fl
    pub window : ℕ → Option SlidingWindow
    pub order_tokens : TokenBucketState fl
    pub cancel_tokens : TokenBucketState fl
    pub warnings : ℕ

  unfoldable pub new_limiter : List Rule → Tier fl → StandardLimiter
  new_limiter rules tier = record {
    rules = rules;
    tier = tier;
    window = λ i. none;
    order_tokens = new_token_bucket_state fl tier.order_bucket;
    cancel_tokens = new_token_bucket_state fl tier.cancel_bucket;
    warnings = 0;
  }

  unfoldable pub window_for : StandardLimiter → ℕ → SlidingWindow
  window_for l i = or_new (limit_at l.rules i) (l.window i)

  -- `l.window[i] = w`
  unfoldable pub set_window : StandardLimiter → ℕ → SlidingWindow → StandardLimiter
  set_window l i w = record l { window = λ j. if j == i then some w else l.window j }

  abbrev pub tokens_of : StandardLimiter → Which → TokenBucketState fl
  tokens_of l order = l.order_tokens
  tokens_of l cancel = l.cancel_tokens

  abbrev pub set_tokens : StandardLimiter → Which → TokenBucketState fl → StandardLimiter
  set_tokens l order b = record l { order_tokens = b }
  set_tokens l cancel b = record l { cancel_tokens = b }

  abbrev pub cost_of : Request → F64
  cost_of r = of_ℤ (if ltb_ℤ r.cost (pos 1) then pos 1 else r.cost)

  -- What `Wait` holds while it sleeps.
  pub record Ticket : Type 0 where
    pub when : ℕ
    pub place : Option Place
    pub which : Option Which
    pub cost : F64

  -- The window's part of the first lock of `Wait`, for the answer of `match`.
  abbrev pub reserve_matched : StandardLimiter → ℕ → ℕ × Bool → Option Place × StandardLimiter
  reserve_matched l now (i, false) = (none, l)
  reserve_matched l now (i, true) =
      let got = reserve (window_for l i) now in
      (some (record { rule = i; at = got.0; res = got.1 }), set_window l i got.2)

  unfoldable pub reserve_window : StandardLimiter → ℕ → Request → Option Place × StandardLimiter
  reserve_window l now r = reserve_matched l now (match r.method r.path l.rules)

  -- The bucket's part of it.
  abbrev pub spend_from :
      StandardLimiter → ℕ → Request → Option Which → Option (Which × ℕ) × StandardLimiter
  spend_from l now r none = (none, l)
  spend_from l now r (some k) =
      let got = spend fl (tokens_of l k) now (cost_of r) in (some (k, got.0), set_tokens l k got.1)

  unfoldable pub reserve_bucket :
      StandardLimiter → ℕ → Request → Option (Which × ℕ) × StandardLimiter
  reserve_bucket l now r = spend_from l now r (bucket_for r.method r.path)

  -- The first lock of `Wait`: both layers are reserved, and the later time counts.
  unfoldable pub begin_wait : StandardLimiter → ℕ → Request → Ticket × StandardLimiter
  unfolding reserve_window reserve_bucket
  begin_wait l now r =
      let first = reserve_window l now r in
      let second_ = reserve_bucket first.1 now r in
      (
        record {
          when = bucket_time (place_time now first.0) second_.0;
          place = first.0;
          which = which_of second_.0;
          cost = cost_of r;
        },
        second_.1,
      )

  abbrev pub leave_window : StandardLimiter → Option Place → StandardLimiter
  leave_window l none = l
  leave_window l (some p) = set_window l p.rule (release (window_for l p.rule) p.res)

  abbrev pub leave_bucket : StandardLimiter → Option Which → F64 → StandardLimiter
  leave_bucket l none cost = l
  leave_bucket l (some k) cost = set_tokens l k (refund fl (tokens_of l k) cost)

  -- The second lock of `Wait`, of a request that will not be sent.
  unfoldable pub give_up : StandardLimiter → Ticket → StandardLimiter
  give_up l t = leave_bucket (leave_window l t.place) t.which t.cost

  -- `Wait`: `over` is the state of the context before, `gives_up` says whether it ends before the delay does, and
  -- `meanwhile` is what other callers do to the limiter during the sleep.
  unfoldable pub wait :
      Bool
      → StandardLimiter
      → Request
      → ℕ
      → Bool
      → (StandardLimiter → StandardLimiter)
      → Bool × StandardLimiter
  unfolding begin_wait give_up
  wait over l r now gives_up meanwhile =
      if over
      then (false, l)
      else (let start = begin_wait l now r in
          if not (ltb now start.0.when)
          then (true, start.1)
          else if gives_up
          then (false, give_up (meanwhile start.1) start.0)
          else (true, meanwhile start.1))
