-- ===== src/Samples.antt =====
-- Functions that stand for the parameters of the model in the examples: a hash that returns 32 bytes, and a
-- reader of plain decimals.
pub mod Orders
use go_polymarket.Base.{
  ℕ, suc, ◌+◌, ◌*◌, ◌%◌, ◌^◌, ◌≡◌, refl, ap, Option, none, some, [], ◌∷◌, ◌++◌, ◌==◌, if◌then◌else◌,
  arith, length, take, replicate, length-take, length-append, length-replicate, All, All-append,
}
use go_polymarket.Base.Bytes.{Bytes, IsByte}
use go_polymarket.Base.Int.{pos}
use go_polymarket.Base.Rat.{Rat}
use go_polymarket.Base.Decimal.{parse_ℕ}

abbrev pub low_bytes : Bytes → Bytes
low_bytes [] = []
low_bytes (x ∷ b) = x % 256 ∷ low_bytes b

-- The first 31 bytes and the length.
abbrev pub short_hash : Bytes → Bytes
short_hash b = low_bytes (take 31 (b ++ replicate 31 0)) ++ (length b % 256) ∷ []

length-low_bytes : (b : Bytes) → length (low_bytes b) ≡ length b
length-low_bytes [] = refl
length-low_bytes (x ∷ b) = ap suc (length-low_bytes b)

low_bytes-IsByte : (b : Bytes) → All IsByte (low_bytes b)
low_bytes-IsByte [] = tt
low_bytes-IsByte (x ∷ b) = (omega arith, low_bytes-IsByte b)

pub length-short_hash : (b : Bytes) → length (short_hash b) ≡ 32
length-short_hash b = omega (
  arith,
  length-append (low_bytes (take 31 (b ++ replicate 31 0))) ((length b % 256) ∷ []),
  length-low_bytes (take 31 (b ++ replicate 31 0)),
  length-take 31 (b ++ replicate 31 0),
  length-append b (replicate 31 0),
  length-replicate {A = ℕ} 31 0,
)

pub short_hash-IsByte : (b : Bytes) → All IsByte (short_hash b)
short_hash-IsByte b =
    All-append IsByte (low_bytes (take 31 (b ++ replicate 31 0))) ((length b % 256) ∷ [])
      (low_bytes-IsByte (take 31 (b ++ replicate 31 0))) (omega arith, tt)

-- The digits before the point, and those behind it.
abbrev before_point : Bytes → Bytes
before_point [] = []
before_point (c ∷ s) = if c == b'.' then [] else c ∷ before_point s

abbrev after_point : Bytes → Bytes
after_point [] = []
after_point (c ∷ s) = if c == b'.' then s else after_point s

abbrev fraction : ℕ → Option ℕ → Option ℕ → Option Rat
fraction places (some whole) (some part) =
    some (record { num = pos (whole * 10 ^ places + part); den = 10 ^ places })
fraction places _ _ = none

-- "0.52" and the like.
abbrev pub plain_decimal : Bytes → Option Rat
plain_decimal s =
    fraction (length (after_point s)) (parse_ℕ (before_point s)) (parse_ℕ (after_point s))
