-- ===== src/RateLimit/Bucket.antt =====
-- ratelimit.go: the trading tiers and the token bucket of a signer. A `float64` is a value of the
-- parameter `Floats`, whose operations are Go's; `nanoseconds` is the conversion to `time.Duration` of
-- a deficit over a rate, in seconds, times a second, which is not negative.
use go_polymarket.Base.{ℕ, ◌+◌, ◌-◌, Bool, if◌then◌else◌, ltb, ◌==◌}
use go_polymarket.Base.Bytes.{Bytes, codes}
use go_polymarket.Base.Int.{ℤ, pos, ltb_ℤ}

pub record Floats : Type 1 where
  pub F64 : Type 0
  pub of_ℤ : ℤ → F64
  pub plus : F64 → F64 → F64
  pub minus : F64 → F64 → F64
  pub times : F64 → F64 → F64
  pub over : F64 → F64 → F64
  pub negate : F64 → F64
  pub least : F64 → F64 → F64
  pub most : F64 → F64 → F64
  pub lt : F64 → F64 → Bool
  pub le : F64 → F64 → Bool
  pub is_nan : F64 → Bool
  pub seconds : ℕ → F64
  pub nanoseconds : F64 → ℕ

module _ (fl : Floats) where
  open fl use {
    F64, of_ℤ, plus, minus, times, over, negate, least, most, lt, le, is_nan, seconds, nanoseconds,
  }

  pub record TokenBucket : Type 0 where
    pub rate : F64
    pub burst : ℤ

  pub record Tier : Type 0 where
    pub name : Bytes
    pub order_bucket : TokenBucket
    pub cancel_bucket : TokenBucket

  pub record TokenBucketState : Type 0 where
    pub bucket : TokenBucket
    pub tokens : F64
    pub updated : ℕ
    pub frozen_till : ℕ

  abbrev bucket_of : ℕ → ℕ → TokenBucket
  bucket_of rate burst = record { rate = of_ℤ (pos rate); burst = pos burst }

  abbrev tier_of : Bytes → ℕ → ℕ → ℕ → ℕ → Tier
  tier_of name r b r' b' = record {
    name = name;
    order_bucket = bucket_of r b;
    cancel_bucket = bucket_of r' b';
  }

  abbrev pub tier_standard : Tier
  tier_standard = tier_of (codes "standard") 40 60 80 120

  abbrev pub tier_copper : Tier
  tier_copper = tier_of (codes "copper") 60 90 120 180

  abbrev pub tier_bronze : Tier
  tier_bronze = tier_of (codes "bronze") 80 120 160 240

  abbrev pub tier_silver : Tier
  tier_silver = tier_of (codes "silver") 200 300 400 600

  abbrev pub tier_gold : Tier
  tier_gold = tier_of (codes "gold") 400 600 800 1200

  abbrev pub tier_platinum : Tier
  tier_platinum = tier_of (codes "platinum") 450 675 900 1350

  abbrev pub tier_diamond : Tier
  tier_diamond = tier_of (codes "diamond") 525 787 1050 1575

  abbrev pub tier_elite : Tier
  tier_elite = tier_of (codes "elite") 600 900 1200 1800

  unfoldable pub new_token_bucket_state : TokenBucket → TokenBucketState
  new_token_bucket_state b =
      let n = if ltb_ℤ b.burst (pos 1) then pos 1 else b.burst in
      record {
        bucket = record {
          rate = if le b.rate (of_ℤ (pos 0)) then of_ℤ (pos 1) else b.rate;
          burst = n;
        };
        tokens = of_ℤ n;
        updated = 0;
        frozen_till = 0;
      }

  unfoldable pub refill : TokenBucketState → ℕ → TokenBucketState
  refill b now =
      if b.updated == 0
      then record b { updated = now }
      else if ltb b.updated now
      then record b {
        tokens =
            least (of_ℤ b.bucket.burst)
              (plus b.tokens (times (seconds (now - b.updated)) b.bucket.rate));
        updated = now;
      }
      else b

  -- When the request may go, and the bucket that has spent its cost.
  unfoldable pub spend : TokenBucketState → ℕ → F64 → ℕ × TokenBucketState
  unfolding refill
  spend b now cost =
      let full = refill b now in
      let enough =
        if lt full.tokens cost
        then now + nanoseconds (over (minus cost full.tokens) full.bucket.rate)
        else now in
      (
        if ltb enough full.frozen_till then full.frozen_till else enough,
        record full { tokens = minus full.tokens cost },
      )

  unfoldable pub refund : TokenBucketState → F64 → TokenBucketState
  refund b cost = record b { tokens = least (of_ℤ b.bucket.burst) (plus b.tokens cost) }

  unfoldable pub adopt : TokenBucketState → F64 → ℕ → TokenBucketState
  adopt b remaining now = if is_nan remaining then b else record b {
    tokens = least (of_ℤ b.bucket.burst) (most (negate (of_ℤ b.bucket.burst)) remaining);
    updated = now;
  }

  unfoldable pub freeze_bucket : TokenBucketState → ℕ → TokenBucketState
  freeze_bucket b t = if ltb b.frozen_till t then record b { frozen_till = t } else b
